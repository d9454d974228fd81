-- ===== src/Identifiers.antt =====
-- identifier.go, makeIdentifier: the ids of jobs, workers and pools; and time.go, the clock with the
-- mock that the tests set. The bytes are those that rand.Read gives, none if it fails.
use mathlib.Core.Path.{ap₂}
use work.Prelude.{
  ◌↔◌, ℕ, ◌+◌, ◌*◌, ◌/◌, ◌%◌, ◌<◌, ◌≡◌, refl, ap, arith, ltb, ◌==◌, List, [], ◌∷◌, ◌++◌, Option,
  none, some, All, length, if◌then◌else◌,
}
use work.Text.{Text, text}
use work.Enqueuer.{epoch_after_seconds}

-- hex.EncodeToString.
unfoldable hex_digit : ℕ → ℕ
hex_digit d = if ltb d 10 then 48 + d else 87 + d

unfoldable encode_to_string : List ℕ → Text
unfolding hex_digit
encode_to_string [] = []
encode_to_string (b ∷ bs) = hex_digit (b / 16) ∷ hex_digit (b % 16) ∷ encode_to_string bs

unfoldable make_identifier : Option (List ℕ) → Text
unfolding encode_to_string
make_identifier none = []
make_identifier (some bytes) = encode_to_string bytes

-- log.go: what logError prints.
unfoldable log_line : Text → Text → Text
log_line key e = text "ERROR: " ++ (key ++ (text " - " ++ (e ++ b'\n' ∷ [])))

-- time.Now in seconds and nanoseconds, and nowMock.
record Clock : Type 0 where
  seconds : ℕ
  nanos : ℕ
  now_mock : ℕ

unfoldable now_epoch_seconds : Clock → ℕ
now_epoch_seconds c = if c.now_mock == 0 then c.seconds else c.now_mock

unfoldable set_now_mock : ℕ → Clock → Clock
set_now_mock t c = record c { now_mock = t }

unfoldable reset_now_mock : Clock → Clock
reset_now_mock c = record c { now_mock = 0 }

unfoldable after_seconds : Clock → ℕ → ℕ
unfolding epoch_after_seconds
after_seconds c secs =
    if c.now_mock == 0 then epoch_after_seconds c.seconds c.nanos secs else c.now_mock + secs

hex_digit-injective : (c d : ℕ) → c < 16 → d < 16 → hex_digit c ≡ hex_digit d → c ≡ d
unfolding hex_digit
hex_digit-injective c d small less e = ground (arith, e)

byte_of_digits : (b c : ℕ) → b < 256 → c < 256 → b / 16 ≡ c / 16 → b % 16 ≡ c % 16 → b ≡ c
byte_of_digits b c small less high low = omega (arith, high, low)

encode_to_string-injective :
    (bs cs : List ℕ)
    → All (λ b. b < 256) bs
    → All (λ c. c < 256) cs
    → encode_to_string bs ≡ encode_to_string cs
    → bs ≡ cs
unfolding encode_to_string
encode_to_string-injective [] [] bytes also e = refl
encode_to_string-injective [] (c ∷ cs) bytes also e = absurd (cc)
encode_to_string-injective (b ∷ bs) [] bytes also e = absurd (cc)
encode_to_string-injective (b ∷ bs) (c ∷ cs) bytes also e =
    let small = bytes.0 in
    let less = also.0 in
    let high = hex_digit-injective (b / 16) (c / 16) (omega arith) (omega arith) (cc) in
    let low = hex_digit-injective (b % 16) (c % 16) (omega arith) (omega arith) (cc) in
    ap₂ (λ x xs. x ∷ xs) (byte_of_digits b c small less high low)
      (encode_to_string-injective bs cs bytes.1 also.1 (cc))

length-encode_to_string : (bs : List ℕ) → length (encode_to_string bs) ≡ 2 * length bs
unfolding encode_to_string
length-encode_to_string [] = refl
length-encode_to_string (b ∷ bs) = let rest = length-encode_to_string bs in omega arith

-- An id is empty if rand.Read fails; otherwise it has two hexadecimal digits for each byte drawn, and
-- the ids of two draws are equal only if the draws are.
make_identifier_lem :
    (bs cs : List ℕ)
    → All (λ b. b < 256) bs
    → All (λ c. c < 256) cs
    → (make_identifier none ≡ [])
      × (length (make_identifier (some bs)) ≡ 2 * length bs)
      × (make_identifier (some bs) ≡ make_identifier (some cs) ↔ bs ≡ cs)
unfolding make_identifier
make_identifier_lem bs cs bytes also = (
  refl,
  length-encode_to_string bs,
  ((λ e. encode_to_string-injective bs cs bytes also e), (λ e. ap (λ xs. encode_to_string xs) e)),
)
