-- ===== src/Base/Text.antt =====
-- Texts: joining them, and the decimal form of a number, as an f-string prints it.
use Prim.Native.Nat.{ℕ, zero, suc, ◌/◌, ◌%◌}
use Prim.Native.String.{String, ◌++◌}
use mathlib.Core.Path.{◌≡◌, refl}
use knowledge_flywheel.Base.Tests.{ltb, if◌then◌else◌}

infixr 65 ◌<>◌
abbrev pub ◌<>◌ : String → String → String
s <> t = ◌++◌ s t

unfoldable pub digit : ℕ → String
digit zero = "0"
digit (suc zero) = "1"
digit (suc (suc zero)) = "2"
digit (suc (suc (suc zero))) = "3"
digit (suc (suc (suc (suc zero)))) = "4"
digit (suc (suc (suc (suc (suc zero))))) = "5"
digit (suc (suc (suc (suc (suc (suc zero)))))) = "6"
digit (suc (suc (suc (suc (suc (suc (suc zero))))))) = "7"
digit (suc (suc (suc (suc (suc (suc (suc (suc zero)))))))) = "8"
digit (suc (suc (suc (suc (suc (suc (suc (suc (suc n))))))))) = "9"

-- One digit for each round; `n + 1` rounds are enough for `n`, which is divided by ten in each.
unfoldable pub show_from : ℕ → ℕ → String
unfolding digit
show_from zero n = ""
show_from (suc f) n =
    let rest = show_from f (n / 10) <> digit (n % 10) in if ltb n 10 then digit n else rest

-- `str(n)` of an integer that is not negative.
unfoldable pub show : ℕ → String
unfolding show_from
show n = show_from (suc n) n

show_407 : show 407 ≡ "407"
unfolding show
show_407 = refl
