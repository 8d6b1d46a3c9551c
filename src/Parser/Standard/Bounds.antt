-- ===== src/Parser/Standard/Bounds.antt =====
-- parseStandardXMLFormat stays within the bounds of its text and numbers its calls.
use vllm_chill.Prelude.{
  ℕ, suc, ◌+◌, ◌-◌, ◌<◌, ◌≤◌, Bytes, codes, some, List, [], ◌∷◌, ◌++◌, length, take, drop, any, All,
  ◌==◌, length-append, length-drop, arith, ◌≡◌, refl, subst, inl, inr, Option-cases, Bool-cases,
}
use vllm_chill.Parser.Run.{slice-within, slice_from-within, Returns}
use vllm_chill.Parser.Text.{trim_space}
use vllm_chill.Parser.Ids.{generate_tool_call_id}
use vllm_chill.Parser.Call.{ToolCall, Packages, Match, Span}
use vllm_chill.Parser.Legacy.{tool_call}
use vllm_chill.Parser.Standard.{
  find_closing_tag, find_next_call, closing_tag_end, closing_pattern, merge_fragments,
  merge_matches, merge_streaming_fragments, last_end, parse_tool_call_xml, named_call, parse_match,
  parse_matches, add_call, part_pattern, tag_pattern, parse_standard_xml_format,
}

-- A place within a text of that length.
abbrev pub IsWithin : ℕ → Span → Type 0
IsWithin n span = (span.first ≤ span.last) × (span.last ≤ n)

abbrev pub IsMatch : ℕ → Match → Type 0
IsMatch n m = IsWithin n m.whole × IsWithin n m.group

-- What package regexp documents of the places that it returns: they lie in the text that was
-- searched, and a match of a tag is not empty.
abbrev pub IsRegexp : Packages → Type 0
IsRegexp packages =
    ((pattern s : Bytes) (span : Span)
      → packages.find pattern s ≡ some span
      → IsWithin (length s) span)
    × ((pattern s : Bytes) → All (IsMatch (length s)) (packages.find_all pattern s))
    × ((s : Bytes) → All (λ m. m.whole.first < m.whole.last) (packages.find_all tag_pattern s))

-- The calls have the ids of the positions from `k` on, and are calls of functions.
abbrev pub IsNumbered : ℕ → List ToolCall → Type 0
IsNumbered k [] = Unit {0}
IsNumbered k (c ∷ cs) =
    (c.id ≡ generate_tool_call_id k) × (c.kind ≡ codes "function") × IsNumbered (suc k) cs

pub IsNumbered-append :
    (k : ℕ) (cs ds : List ToolCall)
    → IsNumbered k cs
    → IsNumbered (k + length cs) ds
    → IsNumbered k (cs ++ ds)
IsNumbered-append k [] ds hc hd = subst (λ n. IsNumbered n ds) (omega arith) hd
IsNumbered-append k (c ∷ cs) ds (hi, hk, hc) hd =
    (hi, hk, IsNumbered-append (suc k) cs ds hc (subst (λ n. IsNumbered n ds) (omega arith) hd))

-- The calls so far are numbered, and the counter is their number.
abbrev IsCounted : ℕ × List ToolCall → Type 0
IsCounted (k, calls) = (length calls ≡ k) × IsNumbered 0 calls

add_call-IsCounted :
    (k : ℕ) (calls : List ToolCall) (name arguments : Bytes)
    → IsCounted (k, calls)
    → IsCounted (add_call (k, calls) (named_call k name arguments))
unfolding tool_call
add_call-IsCounted k calls [] arguments h = h
add_call-IsCounted k calls (c ∷ s) arguments (size, h) = (
  omega (arith, size, length-append calls (tool_call k (trim_space (c ∷ s)) arguments ∷ [])),
  IsNumbered-append 0 calls _ h (
      subst (λ n. IsNumbered n (tool_call k (trim_space (c ∷ s)) arguments ∷ []))
        (omega (arith, size)) (refl, refl, tt)),
)

module _ (packages : Packages) (regexp : IsRegexp packages) (content : Bytes) where
  find_next_call-within :
      (start : ℕ)
      → start < length content
      → Returns
          (λ end. (start ≤ end) × (end ≤ length content))
          (find_next_call packages content start)
  unfolding find_next_call
  find_next_call-within start h =
      let rest = drop (start + 1) content in
      let pattern = codes "<[^:>]*:?(tool_call|function_call)[^>]*>" in
      rw (slice_from-within content (start + 1) (omega (arith, h)))
        (elim (Option-cases (packages.find pattern rest)) [
          | inl e ↦ rw e (length content, refl, (omega (arith, h), omega arith))
          | inr (span, e) ↦
              let (first, last) = regexp.0 pattern rest span e in
              rw e (
                start + 1 + span.first,
                refl,
                (omega arith, omega (arith, h, first, last, length-drop (start + 1) content)),
              )
        ])

  find_closing_tag-within :
      (start : ℕ) (tag : Bytes)
      → start < length content
      → Returns
          (λ end. (start ≤ end) × (end ≤ length content))
          (find_closing_tag packages content start tag)
  unfolding find_closing_tag closing_tag_end
  find_closing_tag-within start tag h =
      let rest = drop start content in
      rw (slice_from-within content start (omega (arith, h)))
        (elim (Option-cases (packages.find (closing_pattern tag) rest)) [
          | inl e ↦ rw e (find_next_call-within start h)
          | inr (span, e) ↦
              let (first, last) = regexp.0 (closing_pattern tag) rest span e in
              rw e (
                start + span.last,
                refl,
                (omega arith, omega (arith, h, first, last, length-drop start content)),
              )
        ])

  merge_fragments-Returns :
      (ms : List Match) (name arguments : Bytes)
      → All (IsMatch (length content)) ms
      → Returns (λ merged. Unit) (merge_fragments packages content name arguments ms)
  unfolding merge_fragments
  merge_fragments-Returns [] name arguments h = ((name, arguments), refl, tt)
  merge_fragments-Returns (m ∷ ms) name arguments ((whole, (first, last)), h) =
      rw (slice-within content m.group.first m.group.last first last)
        (merge_fragments-Returns ms _ _ h)

  last_end-within :
      (m : Match) (ms : List Match)
      → All (IsMatch (length content)) (m ∷ ms)
      → last_end m ms ≤ length content
  last_end-within m [] (((first, last), group), h) = last
  last_end-within m (n ∷ ms) (hm, h) = last_end-within n ms h

  merge_matches-Returns :
      (ms : List Match)
      → All (IsMatch (length content)) ms
      → Returns (λ merged. Unit) (merge_matches packages content ms)
  unfolding merge_matches
  merge_matches-Returns [] h = (content, refl, tt)
  merge_matches-Returns (m ∷ []) h = (content, refl, tt)
  merge_matches-Returns (m ∷ n ∷ ms) h =
      let (merged, e, done) = merge_fragments-Returns (m ∷ n ∷ ms) [] [] h in
      let (first, last) = h.0.0 in
      rw
        (
          e,
          slice-within content 0 m.whole.first (omega arith) (omega (arith, first, last)),
          slice_from-within content (last_end n ms) (last_end-within n ms h.1),
        )
        (_, refl, tt)

  parse_match-IsCounted :
      (k : ℕ) (calls : List ToolCall) (m : Match)
      → IsMatch (length content) m
      → m.whole.first < m.whole.last
      → IsCounted (k, calls)
      → Returns IsCounted (parse_match packages content (k, calls) m)
  unfolding parse_match parse_tool_call_xml
  parse_match-IsCounted k calls m ((w_first, w_last), (g_first, g_last)) full h =
      let tag = take (m.group.last - m.group.first) (drop m.group.first content) in
      let (end, e, (from, to)) =
        find_closing_tag-within m.whole.first tag (omega (arith, full, w_last)) in
      rw
        (
          slice-within content m.group.first m.group.last g_first g_last,
          e,
          slice-within content m.whole.first end from to,
        )
        (_, refl, add_call-IsCounted k calls _ _ h)

  parse_matches-IsCounted :
      (ms : List Match) (processed : List ℕ) (found : ℕ × List ToolCall)
      → All (IsMatch (length content)) ms
      → All (λ m. m.whole.first < m.whole.last) ms
      → IsCounted found
      → Returns IsCounted (parse_matches packages content processed found ms)
  unfolding parse_matches
  parse_matches-IsCounted [] processed found h full c = (found, refl, c)
  parse_matches-IsCounted (m ∷ ms) processed found (hm, h) (fm, full) c =
      elim (Bool-cases (any (λ i. i == m.whole.first) processed)) [
        | inl e ↦ rw (parse_matches, e) (parse_matches-IsCounted ms processed found h full c)
        | inr e ↦
            let (more, run, counted) = parse_match-IsCounted found.0 found.1 m hm fm c in
            rw (parse_matches, e, run)
              (parse_matches-IsCounted ms (m.whole.first ∷ processed) more h full counted)
      ]

-- On every text, the parser of the standard format returns, slices nothing out of range, and numbers
-- its calls from 0 on.
pub parse_standard_xml_format-IsNumbered :
    (packages : Packages) (content : Bytes)
    → IsRegexp packages
    → Returns (IsNumbered 0) (parse_standard_xml_format packages content)
unfolding parse_standard_xml_format merge_streaming_fragments
parse_standard_xml_format-IsNumbered packages content regexp =
    let (merged, e, done) =
      merge_matches-Returns packages regexp content (packages.find_all part_pattern content)
        (regexp.1 part_pattern content) in
    let (found, run, counted) =
      parse_matches-IsCounted packages regexp merged (packages.find_all tag_pattern merged) []
        (0, []) (regexp.1 tag_pattern merged) (regexp.2 merged) (refl, tt) in
    rw (e, run) (found.1, refl, counted.1)
