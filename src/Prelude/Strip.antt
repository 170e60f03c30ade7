-- ===== src/Prelude/Strip.antt =====
-- A text is stripped to nothing exactly when it is blank, and stripping keeps what is not.
use Prim.Native.Char.{Char, code}
use Prim.Native.String.{String}
use mathlib.Core.Path.{◌≡◌, refl, sym, ap, ◌∙◌}
use mathlib.Core.Bool.{Bool, true, false, ◌&&◌}
use native.Mathlib.Omega.{arith}
use secure_api_gateway.Prelude.Tests.{if◌then◌else◌}
use secure_api_gateway.Prelude.Texts.{
  is_space, lstrip_string, rstrip_string, keep_before, strip_string, is_empty,
}

blank : String → Bool
blank String.[] = true
blank (String.◌∷◌ c s) = is_space (code c) && blank s

blank-lstrip : (s : String) → blank (lstrip_string s) ≡ blank s
unfolding blank lstrip_string
blank-lstrip String.[] = refl
blank-lstrip (String.◌∷◌ c s) = ground (arith, blank-lstrip s)

blank_if :
    (c : Char) (b : Bool)
    → is_space (code c) ≡ b
    → blank (if b then "" else String.◌∷◌ c "") ≡ (b && true)
unfolding blank
blank_if c true e = refl
blank_if c false e = ap (λ b. b && true) e

blank-keep_before :
    (c : Char) (s : String) → blank (keep_before c s) ≡ (is_space (code c) && blank s)
unfolding blank keep_before
blank-keep_before c String.[] = blank_if c (is_space (code c)) refl
blank-keep_before c (String.◌∷◌ d s) = refl

blank-rstrip : (s : String) → blank (rstrip_string s) ≡ blank s
unfolding blank rstrip_string
blank-rstrip String.[] = refl
blank-rstrip (String.◌∷◌ c s) =
    blank-keep_before c (rstrip_string s) ∙ ap (λ b. is_space (code c) && b) (blank-rstrip s)

empty-lstrip : (s : String) → is_empty (lstrip_string s) ≡ blank s
unfolding blank lstrip_string is_empty
empty-lstrip String.[] = refl
empty-lstrip (String.◌∷◌ c s) = ground (arith, empty-lstrip s)

empty-strip : (s : String) → is_empty (strip_string s) ≡ blank s
unfolding strip_string
empty-strip s = empty-lstrip (rstrip_string s) ∙ blank-rstrip s

-- What is left of a text that is not blank is not blank.
pub empty-strip_strip :
    (s : String) → is_empty (strip_string (strip_string s)) ≡ is_empty (strip_string s)
unfolding strip_string
empty-strip_strip s =
    empty-strip (strip_string s)
    ∙ blank-lstrip (rstrip_string s)
    ∙ blank-rstrip s
    ∙ sym (empty-strip s)
