-- ===== src/Proxy/Writer/Dedupe/Repeat.antt =====
-- The deduplication of a write that is repeated.
use vllm_chill.Prelude.{
  Bytes, codes, same, same_refl, split_on, Bool, true, false, not, ◌||◌, Option, none, some, List,
  [], ◌∷◌, All, ◌≡◌, refl, arith, Bool-cases, inl, inr, ap,
}
use vllm_chill.Kubernetes.Models.{is_empty}
use vllm_chill.Proxy.Json.{Items, nil, cons, obj, as_map}
use vllm_chill.Proxy.Writer.{Env, Writer, payload_of}
use vllm_chill.Proxy.Writer.Dedupe.{
  newline, emit, is_cons, check_line, check_payload, check_calls, call_info, with_start, with_args,
  calls_in, dedupe_lines, deduplicate, member,
}

-- A line without a payload, or with the end marker.
unfoldable pub is_text_or_marker : Bytes → Option Bytes → Bool → Bool
is_text_or_marker l none started = not (is_empty l) || started
is_text_or_marker l (some s) started = same s (codes "[DONE]")

-- The lines without their chunks: text, the end marker, and empty lines behind something.
unfoldable pub without_chunks : List Bytes → Bytes → Bytes
without_chunks [] out = out
without_chunks (l ∷ ls) out =
    without_chunks ls (emit (is_text_or_marker l (payload_of l) (is_cons out)) l out)

module _ (env : Env) where
  -- the hash of a payload was recorded; the end marker is not hashed
  abbrev IsSeen : Writer → Option Bytes → Type 0
  IsSeen w none = Unit
  IsSeen w (some s) = same s (codes "[DONE]") ≡ false → member (env.hash s) w.seen_chunks ≡ true

  check_calls-seen :
      (xs : Items) (w : Writer) → (check_calls env xs w).1.seen_chunks ≡ w.seen_chunks
  unfolding check_calls
  check_calls-seen nil w = refl
  check_calls-seen (cons (obj m) xs) w =
      let i = call_info env (some m) in
      ground (arith, check_calls-seen xs (with_args i (with_start i w)))
  check_calls-seen (cons _ xs) w = check_calls-seen xs w

  check_payload-keeps :
      (s : Bytes) (w : Writer) (k : Bytes)
      → member k w.seen_chunks ≡ true
      → member k (check_payload env s w).1.seen_chunks ≡ true
  unfolding check_payload member
  check_payload-keeps s w k h = ground (
    arith,
    check_calls-seen (calls_in (as_map (env.unmarshal s)))
        (record w { seen_chunks = env.hash s ∷ w.seen_chunks }),
  )

  check_payload-records :
      (s : Bytes) (w : Writer) → member (env.hash s) (check_payload env s w).1.seen_chunks ≡ true
  unfolding check_payload member
  check_payload-records s w = ground (
    arith,
    same_refl (env.hash s),
    check_calls-seen (calls_in (as_map (env.unmarshal s)))
        (record w { seen_chunks = env.hash s ∷ w.seen_chunks }),
  )

  check_line-keeps :
      (l : Bytes) (p : Option Bytes) (b : Bool) (w : Writer) (k : Bytes)
      → member k w.seen_chunks ≡ true
      → member k (check_line env l p b w).1.seen_chunks ≡ true
  unfolding check_line
  check_line-keeps l none b w k h = h
  check_line-keeps l (some s) b w k h = ground (arith, check_payload-keeps s w k h)

  check_line-records :
      (l : Bytes) (p : Option Bytes) (b : Bool) (w : Writer) → IsSeen (check_line env l p b w).1 p
  unfolding check_line
  check_line-records l none b w = tt
  check_line-records l (some s) b w = λ open_ended. ground (arith, check_payload-records s w)

  dedupe_lines-keeps :
      (ls : List Bytes) (out : Bytes) (w : Writer) (k : Bytes)
      → member k w.seen_chunks ≡ true
      → member k (dedupe_lines env ls out w).1.seen_chunks ≡ true
  unfolding dedupe_lines
  dedupe_lines-keeps [] out w k h = h
  dedupe_lines-keeps (l ∷ ls) out w k h =
      let (keep, w') = check_line env l (payload_of l) (is_cons out) w in
      dedupe_lines-keeps ls (emit keep l out) w' k
        (check_line-keeps l (payload_of l) (is_cons out) w k h)

  IsSeen-keeps :
      (p : Option Bytes) (ls : List Bytes) (out : Bytes) (w : Writer)
      → IsSeen w p
      → IsSeen (dedupe_lines env ls out w).1 p
  IsSeen-keeps none ls out w h = tt
  IsSeen-keeps (some s) ls out w h =
      λ open_ended. dedupe_lines-keeps ls out w (env.hash s) (h open_ended)

  dedupe_lines-records :
      (ls : List Bytes) (out : Bytes) (w : Writer)
      → All (λ l. IsSeen (dedupe_lines env ls out w).1 (payload_of l)) ls
  unfolding dedupe_lines
  dedupe_lines-records [] out w = tt
  dedupe_lines-records (l ∷ ls) out w =
      let (keep, w') = check_line env l (payload_of l) (is_cons out) w in
      (
        IsSeen-keeps (payload_of l) ls (emit keep l out) w'
            (check_line-records l (payload_of l) (is_cons out) w),
        dedupe_lines-records ls (emit keep l out) w',
      )

  check_line-seen :
      (l : Bytes) (p : Option Bytes) (b : Bool) (w : Writer)
      → IsSeen w p
      → check_line env l p b w ≡ (is_text_or_marker l p b, w)
  unfolding check_line check_payload is_text_or_marker
  check_line-seen l none b w h = refl
  check_line-seen l (some s) b w h = elim (Bool-cases (same s (codes "[DONE]"))) [
    | inl done ↦ rw done
    | inr more ↦ rw (more, h more)
  ]

  dedupe_lines-seen :
      (ls : List Bytes) (out : Bytes) (w : Writer)
      → All (λ l. IsSeen w (payload_of l)) ls
      → dedupe_lines env ls out w ≡ (without_chunks ls out, w)
  unfolding dedupe_lines without_chunks
  dedupe_lines-seen [] out w h = refl
  dedupe_lines-seen (l ∷ ls) out w (h, hs) =
      rw (check_line-seen l (payload_of l) (is_cons out) w h)
        (dedupe_lines-seen ls (emit (is_text_or_marker l (payload_of l) (is_cons out)) l out) w hs)

  -- the writes that are given to the deduplication one after the other
  abbrev pub deduplicate_each : List Bytes → Writer → Writer
  deduplicate_each [] w = w
  deduplicate_each (b ∷ bs) w = deduplicate_each bs (deduplicate env b w).1

  All-IsSeen :
      (ps ls : List Bytes) (out : Bytes) (w : Writer)
      → All (λ l. IsSeen w (payload_of l)) ps
      → All (λ l. IsSeen (dedupe_lines env ls out w).1 (payload_of l)) ps
  All-IsSeen [] ls out w h = tt
  All-IsSeen (p ∷ ps) ls out w (h, hs) =
      (IsSeen-keeps (payload_of p) ls out w h, All-IsSeen ps ls out w hs)

  deduplicate_each-IsSeen :
      (ps bs : List Bytes) (w : Writer)
      → All (λ l. IsSeen w (payload_of l)) ps
      → All (λ l. IsSeen (deduplicate_each bs w) (payload_of l)) ps
  unfolding deduplicate
  deduplicate_each-IsSeen ps [] w h = h
  deduplicate_each-IsSeen ps (b ∷ bs) w h =
      deduplicate_each-IsSeen ps bs (deduplicate env b w).1
        (All-IsSeen ps (split_on newline b) [] w h)

  -- A write that the deduplication is given again, after any other writes, as vLLM's workers send it,
  -- leaves only its lines without chunks, and does not change the writer. No assumption on the hash
  -- is made.
  pub repeat_is_dropped :
      (b : Bytes) (between : List Bytes) (w : Writer)
      → let w' = deduplicate_each (b ∷ between) w in
        ((deduplicate env b w').0.0 ≡ without_chunks (split_on newline b) [])
        × ((deduplicate env b w').1 ≡ w')
  unfolding deduplicate
  repeat_is_dropped b between w =
      let ls = split_on newline b in
      let w' = deduplicate_each (b ∷ between) w in
      let seen =
        deduplicate_each-IsSeen ls between (deduplicate env b w).1 (dedupe_lines-records ls [] w) in
      let e = dedupe_lines-seen ls [] w' seen in
      (ap (λ (r : Bytes × Writer). r.0) e, ap (λ (r : Bytes × Writer). r.1) e)
