-- ===== src/Parser/Legacy/Calls.antt =====
-- The loop of parseLegacyFormat against the reference.
use vllm_chill.Prelude.{
  ℕ, zero, suc, ◌<◌, Bytes, List, [], ◌∷◌, ◌++◌, length, append_assoc, append-nil, arith, ◌≡◌, refl,
  ap, ◌∙◌, sym,
}
use vllm_chill.Parser.Run.{Run, returns}
use vllm_chill.Parser.Call.{ToolCall, Packages}
use vllm_chill.Parser.Legacy.{
  CallRound, no_call, call, tool_call, next_call_round, legacy_from, parse_legacy_format,
}
use vllm_chill.Parser.Legacy.Reading.{
  CallReading, nothing, reading, read_call, read_next_call, read_calls_from, read_calls,
}
use vllm_chill.Parser.Legacy.Marks.{Agrees}
use vllm_chill.Parser.Legacy.Body.{next_call-IsRead}

module _ (content : Bytes) (size : ℕ) (again : ℕ → ℕ → List ToolCall → Run (List ToolCall))
    (again_read : Bytes → ℕ → List ToolCall)
    (agree : (before after : Bytes) (next k : ℕ) (calls : List ToolCall)
      → length after < size
      → content ≡ before ++ after
      → next ≡ length before
      → again next k calls ≡ returns (calls ++ again_read after k)) where
  next_call_round-read :
      (k : ℕ) (calls : List ToolCall) (round : CallRound) (read : CallReading)
      → Agrees content size round read
      → next_call_round again k calls round ≡ returns (calls ++ read_next_call again_read k read)
  unfolding next_call_round read_next_call
  next_call_round-read k calls no_call nothing h = ap returns (sym (append-nil calls))
  next_call_round-read k calls (call n a next) (reading m b after)
        (hn, ha, small, (before, e, hb)) =
      rw (hn, ha)
        (agree before after next (suc k) (calls ++ tool_call k m b ∷ []) small e hb
          ∙ ap returns (append_assoc calls (tool_call k m b ∷ []) (again_read after (suc k))))
  next_call_round-read k calls no_call (reading m b after) h = ground (arith, h)
  next_call_round-read k calls (call n a next) nothing h = ground (arith, h)

legacy_from-read :
    (packages : Packages) (fuel : ℕ) (content before s : Bytes) (idx k : ℕ) (calls : List ToolCall)
    → length s < fuel
    → content ≡ before ++ s
    → idx ≡ length before
    → legacy_from packages fuel content idx k calls
      ≡ returns (calls ++ read_calls_from packages fuel s k)
unfolding legacy_from read_calls_from
legacy_from-read packages zero content before s idx k calls h e hb = ground (arith, h)
legacy_from-read packages (suc fuel) content before s idx k calls h e hb =
    let (round, run, agrees) = next_call-IsRead packages content before s idx e hb in
    rw run (
      next_call_round-read content (length s) (legacy_from packages fuel content)
        (read_calls_from packages fuel)
        (λ b after next j cs small e_after e_next.
          legacy_from-read packages fuel content b after next j cs (omega (arith, h, small)) e_after
            e_next)
        k calls round (read_call packages s) agrees)

-- On every text, parseLegacyFormat ends, slices nothing out of range, and returns the calls that the
-- text reads as when it is cut at its tags.
pub parse_legacy_format-read :
    (packages : Packages) (content : Bytes)
    → parse_legacy_format packages content ≡ returns (read_calls packages content)
unfolding parse_legacy_format read_calls
parse_legacy_format-read packages content =
    legacy_from-read packages (suc (length content)) content [] content 0 0 [] (omega arith) refl
      refl
