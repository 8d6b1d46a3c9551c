-- ===== src/Metrics/Recorded/Consistent.antt =====
-- The counters of the recorder agree with its histograms.
use vllm_chill.Prelude.{
  ℕ, suc, Bytes, codes, same, to_decimal, true, false, List, [], ◌∷◌, ◌++◌, length, length-append,
  arith, ◌≡◌, refl, ◌∙◌,
}
use vllm_chill.Metrics.Series.{Labels, same_labels, value_of, value_of-alter}
use vllm_chill.Metrics.Recorded.{
  Counter, Histogram, Metrics, Call, request, operation, scale_op, increment, observe, perform,
  record_request, record_operation, record_scale_op, record_xml_parsing,
}

-- The counters and the histograms tell the same: a request was counted as often as its duration was
-- observed, and so was every operation that succeeded.
pub record IsConsistent (m : Metrics) : Type 0 where
  pub requests :
      (l : Labels) → value_of 0 l m.requests_total ≡ length (value_of [] l m.request_duration)
  pub operations :
      (a b : Bytes)
      → value_of 0 (a ∷ b ∷ codes "success" ∷ []) m.managed_operations
        ≡ length (value_of [] (a ∷ b ∷ []) m.managed_operation_duration)
  pub scaled :
      (d : Bytes)
      → value_of 0 (d ∷ codes "success" ∷ []) m.scale_ops
        ≡ length (value_of [] (d ∷ []) m.scale_op_duration)

-- An increment and an observation for labels that are equal or different together.
both_alter :
    (j k i l : Labels) (x : ℕ) (c : Counter) (h : Histogram)
    → same_labels j k ≡ same_labels i l
    → value_of 0 k c ≡ length (value_of [] l h)
    → value_of 0 k (increment j c) ≡ length (value_of [] l (observe i x h))
both_alter j k i l x c h e eq =
    rw (value_of-alter 0 j k suc c, value_of-alter [] i l (λ xs. xs ++ x ∷ []) h, e)
      (ground (arith, eq, length-append (value_of [] l h) (x ∷ [])))

other_alter :
    (j k : Labels) (c : Counter)
    → same_labels j k ≡ false
    → value_of 0 k (increment j c) ≡ value_of 0 k c
other_alter j k c e = rw (value_of-alter 0 j k suc c, e) refl

-- The label of the status, where the other labels are the same.
same_one :
    (a b : Bytes)
    → same_labels (a ∷ codes "success" ∷ []) (b ∷ codes "success" ∷ [])
      ≡ same_labels (a ∷ []) (b ∷ [])
unfolding same_labels same
same_one a b = refl

same_pair :
    (a b c d : Bytes)
    → same_labels (a ∷ b ∷ codes "success" ∷ []) (c ∷ d ∷ codes "success" ∷ [])
      ≡ same_labels (a ∷ b ∷ []) (c ∷ d ∷ [])
unfolding same_labels same
same_pair a b c d = refl

failed_one :
    (a b : Bytes) → same_labels (a ∷ codes "failure" ∷ []) (b ∷ codes "success" ∷ []) ≡ false
unfolding same_labels same
failed_one a b = ground arith

failed_pair :
    (a b c d : Bytes)
    → same_labels (a ∷ b ∷ codes "failure" ∷ []) (c ∷ d ∷ codes "success" ∷ []) ≡ false
unfolding same_labels same
failed_pair a b c d = ground arith

perform-IsConsistent : (call : Call) (m : Metrics) → IsConsistent m → IsConsistent (perform call m)
unfolding perform record_request record_operation record_scale_op record_xml_parsing
perform-IsConsistent (request method path status duration req resp) m inv = record {
  requests = λ l.
      let labels = method ∷ path ∷ to_decimal status ∷ [] in
      both_alter labels l labels l duration m.requests_total m.request_duration refl
        (inv.requests l);
  operations = inv.operations;
  scaled = inv.scaled;
}
perform-IsConsistent (operation a b true duration) m inv = record {
  requests = inv.requests;
  operations = λ c d.
      both_alter (a ∷ b ∷ codes "success" ∷ []) (c ∷ d ∷ codes "success" ∷ []) (a ∷ b ∷ [])
        (c ∷ d ∷ []) duration m.managed_operations m.managed_operation_duration (same_pair a b c d)
        (inv.operations c d);
  scaled = inv.scaled;
}
perform-IsConsistent (operation a b false duration) m inv = record {
  requests = inv.requests;
  operations = λ c d.
      other_alter (a ∷ b ∷ codes "failure" ∷ []) (c ∷ d ∷ codes "success" ∷ []) m.managed_operations
        (failed_pair a b c d)
      ∙ inv.operations c d;
  scaled = inv.scaled;
}
perform-IsConsistent (scale_op d true duration) m inv = record {
  requests = inv.requests;
  operations = inv.operations;
  scaled = λ c.
      both_alter (d ∷ codes "success" ∷ []) (c ∷ codes "success" ∷ []) (d ∷ []) (c ∷ []) duration
        m.scale_ops m.scale_op_duration (same_one d c) (inv.scaled c);
}
perform-IsConsistent (scale_op d false duration) m inv = record {
  requests = inv.requests;
  operations = inv.operations;
  scaled = λ c.
      other_alter (d ∷ codes "failure" ∷ []) (c ∷ codes "success" ∷ []) m.scale_ops (failed_one d c)
      ∙ inv.scaled c;
}
perform-IsConsistent call m inv = record {
  requests = inv.requests;
  operations = inv.operations;
  scaled = inv.scaled;
}

abbrev pub perform_all : List Call → Metrics → Metrics
perform_all [] m = m
perform_all (call ∷ calls) m = perform_all calls (perform call m)

-- Whatever calls the recorder gets, its counters and its histograms agree, if they did before: for
-- all labels, the requests are counted as often as their duration is observed, and so are the model
-- switches and the scale operations that succeed.
pub perform_all-IsConsistent :
    (calls : List Call) (m : Metrics) → IsConsistent m → IsConsistent (perform_all calls m)
perform_all-IsConsistent [] m inv = inv
perform_all-IsConsistent (call ∷ calls) m inv =
    perform_all-IsConsistent calls (perform call m) (perform-IsConsistent call m inv)
