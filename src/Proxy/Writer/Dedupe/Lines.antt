-- ===== src/Proxy/Writer/Dedupe/Lines.antt =====
-- pkg/proxy/response_writer.go: what the deduplication makes of the lines of a write.
use vllm_chill.Prelude.{
  Bytes, codes, same_iff, split_on, Bool, true, false, none, List, [], ◌∷◌, ◌++◌, length-append,
  negsuc, All, ◌≡◌, ◌≢◌, refl, sym, arith, append-nil, append_assoc,
}
use vllm_chill.Proxy.Json.{as_map}
use vllm_chill.Proxy.Writer.{Env, Writer, payload_of}
use vllm_chill.Proxy.Writer.Dedupe.{
  newline, emit, is_cons, check_line, check_payload, check_calls, dedupe_lines, deduplicate, member,
}

-- Some of the elements, in their order.
pub data Selection {ℓ} {A : Type ℓ} : List A → List A → Type ℓ where
  finished : Selection [] []
  kept : {x : A} {ks xs : List A} → Selection ks xs → Selection (x ∷ ks) (x ∷ xs)
  dropped : {x : A} {ks xs : List A} → Selection ks xs → Selection ks (x ∷ xs)

abbrev pub unlines : List Bytes → Bytes
unlines [] = []
unlines (l ∷ ls) = (l ++ newline ∷ []) ++ unlines ls

abbrev prepend : Bool → Bytes → List Bytes → List Bytes
prepend true l ls = l ∷ ls
prepend false l ls = ls

prepend-Selection :
    (keep : Bool) (l : Bytes) {ks ls : List Bytes}
    → Selection ks ls
    → Selection (prepend keep l ks) (l ∷ ls)
prepend-Selection true l s = kept s
prepend-Selection false l s = dropped s

module _ (env : Env) where
  -- the lines that the loop passes on
  kept_lines : List Bytes → Bytes → Writer → List Bytes
  kept_lines [] out w = []
  kept_lines (l ∷ ls) out w =
      let (keep, w') = check_line env l (payload_of l) (is_cons out) w in
      prepend keep l (kept_lines ls (emit keep l out) w')

  kept_lines-Selection :
      (ls : List Bytes) (out : Bytes) (w : Writer) → Selection (kept_lines ls out w) ls
  unfolding kept_lines
  kept_lines-Selection [] out w = finished
  kept_lines-Selection (l ∷ ls) out w =
      let (keep, w') = check_line env l (payload_of l) (is_cons out) w in
      prepend-Selection keep l (kept_lines-Selection ls (emit keep l out) w')

  dedupe_lines-unlines :
      (ls : List Bytes) (out : Bytes) (w : Writer)
      → (dedupe_lines env ls out w).0 ≡ out ++ unlines (kept_lines ls out w)
  unfolding dedupe_lines kept_lines
  dedupe_lines-unlines [] out w = sym (append-nil out)
  dedupe_lines-unlines (l ∷ ls) out w =
      let (keep, w') = check_line env l (payload_of l) (is_cons out) w in
      ground (
        arith,
        dedupe_lines-unlines ls (emit keep l out) w',
        append_assoc out (l ++ newline ∷ []) (unlines (kept_lines ls (emit keep l out) w')),
      )

  -- What is left of a write is a selection of its lines, in their order, each ended by one newline.
  pub deduplicate_selects :
      (b : Bytes) (w : Writer)
      → (ks : List Bytes) × Selection ks (split_on newline b)
        × ((deduplicate env b w).0.0 ≡ unlines ks)
  unfolding deduplicate
  deduplicate_selects b w = (
    kept_lines (split_on newline b) [] w,
    kept_lines-Selection (split_on newline b) [] w,
    dedupe_lines-unlines (split_on newline b) [] w,
  )

split_on-fragment : (s : Bytes) → All (λ c. c ≢ newline) s → split_on newline s ≡ s ∷ []
unfolding split_on
split_on-fragment [] h = refl
split_on-fragment (c ∷ s) (h, hs) = ground (arith, split_on-fragment s hs)

fragment_kept :
    (env : Env) (s : Bytes) (w : Writer)
    → s ≢ codes "[DONE]"
    → as_map (env.unmarshal s) ≡ none
    → member (env.hash s) w.seen_chunks ≡ false
    → (dedupe_lines env ((codes "data: " ++ s) ∷ []) [] w).0 ≡ (codes "data: " ++ s) ++ newline ∷ []
unfolding dedupe_lines payload_of check_line check_payload check_calls
fragment_kept env s w open_ended broken fresh = ground (arith, same_iff s (codes "[DONE]"))

-- A fragment of a data line, as a chunk that arrives in two writes begins: it has no newline, its
-- JSON is not complete, and it was not seen before. It is passed on with a newline that the stream
-- does not have, and the count of filtered bytes is -1.
pub fragment_gets_newline :
    (env : Env) (s : Bytes) (w : Writer)
    → All (λ c. c ≢ newline) s
    → s ≢ codes "[DONE]"
    → as_map (env.unmarshal s) ≡ none
    → member (env.hash s) w.seen_chunks ≡ false
    → (deduplicate env (codes "data: " ++ s) w).0
      ≡ ((codes "data: " ++ s) ++ newline ∷ [], negsuc 0)
unfolding deduplicate
fragment_gets_newline env s w clean open_ended broken fresh =
    rw (split_on-fragment s clean, fragment_kept env s w open_ended broken fresh)
      (ground (arith, length-append s (newline ∷ [])))
