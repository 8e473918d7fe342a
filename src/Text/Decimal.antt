-- ===== src/Text/Decimal.antt =====
-- The decimal spelling of a counter, and of the references built from it.
use ocap_kernel.Prelude.{ℕ, zero, suc, ◌+◌, List, [], ◌∷◌, if◌then◌else◌, ltb}
use Prim.Native.Nat.{◌/◌, ◌%◌}
use Prim.Native.Char.{code}
use Prim.Native.String.{String}
use ocap_kernel.Refs.{KRef, ko, kp, EndpointId, vat, remote}

-- The digits of `n`, most significant first, in front of `rest`; `fuel` rounds are enough for a
-- number below it.
unfoldable pub digits : ℕ → ℕ → List ℕ → List ℕ
digits zero n rest = rest
digits (suc fuel) n rest =
    let d = (48 + n % 10) ∷ rest in
    let more = digits fuel (n / 10) d in if ltb n 10 then d else more

unfoldable pub decimal : ℕ → List ℕ
unfolding digits
decimal n = digits (suc n) n []

unfoldable pub kref_text : KRef → List ℕ
unfolding decimal
kref_text (ko n) = b'k' ∷ b'o' ∷ decimal n
kref_text (kp n) = b'k' ∷ b'p' ∷ decimal n

unfoldable pub endpoint_text : EndpointId → List ℕ
unfolding decimal
endpoint_text (vat n) = b'v' ∷ decimal n
endpoint_text (remote n) = b'r' ∷ decimal n

-- The code points of a text.
abbrev pub codes : String → List ℕ
codes String.[] = []
codes (String.◌∷◌ c s) = code c ∷ codes s
