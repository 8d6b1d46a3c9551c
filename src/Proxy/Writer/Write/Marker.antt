-- ===== src/Proxy/Writer/Write/Marker.antt =====
-- The end marker of a stream in a write.
use vllm_chill.Prelude.{
  ℕ, Bytes, codes, same, same_iff, has_prefix, trim_prefix, any, Bool, Bool-cases, inl, inr, subst,
  sym, true, List, [], ◌∷◌, ◌≡◌, refl, arith,
}
use vllm_chill.Proxy.Writer.{Env, Writer, is_done, payload_of, scan_lines}

-- the lines of a write hold the end marker
abbrev pub ends_stream : List Bytes → Bool
ends_stream ls = any (λ l. same l (codes "data: [DONE]")) ls

marker_is_done : (l : Bytes) → same l (codes "data: [DONE]") ≡ true → is_done (payload_of l) ≡ true
unfolding payload_of has_prefix trim_prefix same
marker_is_done l h =
    subst (λ m. is_done (payload_of m) ≡ true) (sym ((same_iff l (codes "data: [DONE]")).0 h)) refl

module _ (env : Env) where
  scan_lines-done :
      (now : ℕ) (ls : List Bytes) (done : Bool) (w : Writer)
      → done ≡ true
      → (scan_lines env now ls done w).1 ≡ true
  unfolding scan_lines
  scan_lines-done now [] done w h = h
  scan_lines-done now (l ∷ ls) done w h = scan_lines-done now ls _ _ (rw h refl)

  -- The loop over the lines finds the end marker.
  pub scan_lines-ends :
      (now : ℕ) (ls : List Bytes) (done : Bool) (w : Writer)
      → ends_stream ls ≡ true
      → (scan_lines env now ls done w).1 ≡ true
  unfolding scan_lines
  scan_lines-ends now [] done w h = cc
  scan_lines-ends now (l ∷ ls) done w h = elim (Bool-cases (same l (codes "data: [DONE]"))) [
    | inl here ↦ scan_lines-done now ls _ _ (ground (arith, marker_is_done l here))
    | inr later ↦ scan_lines-ends now ls _ _ (ground (arith, later, h))
  ]
