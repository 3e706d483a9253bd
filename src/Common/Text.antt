-- ===== src/Common/Text.antt =====
-- Text as the source handles it: a list of code units where it builds or orders text, native
-- `String` where it only passes text on or tests it.
use Prim.Native.Nat.{ℕ}
use Prim.Native.String.{String}
use mathlib.Core.Path.{◌≡◌}
use mathlib.Core.Logic.{◌↔◌}
use mathlib.Core.Bool.{Bool, true, false, ◌&&◌}
use mathlib.Core.List.{List, [], ◌∷◌}
use native.Mathlib.Omega.{arith}
use roost_assured.Common.Tests.{if◌then◌else◌, Comparable, string_key, ◌==◌, nat_beq}

-- `!text`: the empty text is falsy.
abbrev pub is_empty : String → Bool
is_empty s = s == ""

-- `text || other`.
abbrev pub text_or : String → String → String
text_or s other = if is_empty s then other else s

-- `===` on lists of code units.
abbrev pub text_beq : List ℕ → List ℕ → Bool
text_beq [] [] = true
text_beq (c ∷ cs) (d ∷ ds) = nat_beq c d && text_beq cs ds
text_beq _ _ = false

pub text_beq_iff : (cs ds : List ℕ) → (text_beq cs ds ≡ true) ↔ (cs ≡ ds)
text_beq_iff [] [] = ground arith
text_beq_iff [] (d ∷ ds) = ground arith
text_beq_iff (c ∷ cs) [] = ground arith
text_beq_iff (c ∷ cs) (d ∷ ds) = ground (arith, text_beq_iff cs ds)

instance abbrev pub text_key : Comparable (List ℕ)
text_key = record { same = text_beq; same_iff = text_beq_iff }
