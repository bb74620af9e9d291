-- ===== src/Wire/Bits.antt =====
-- The bit operations on the flag words as arithmetic. Each is checked on every word of 16 bits.
use Prim.Native.Nat.{bit_and, bit_or}
use hopdns.Base.{
  ℕ, zero, suc, ◌+◌, ◌*◌, ◌/◌, ◌%◌, ◌^◌, ◌<◌, Bool, true, ◌&&◌, ◌≡◌, refl, ◌==◌, ==_iff, arith,
  subst, ap, ◌∙◌, sym,
}
use hopdns.Wire.{Rcode, rcode_number, qr_bit, aa_bit, rd_bit, cd_bit}
use hopdns.Wire.Reply.{with_rcode, head_flags}

holds_below : (ℕ → Bool) → ℕ → Bool
holds_below test zero = true
holds_below test (suc n) = holds_below test n && test n

test-below :
    (test : ℕ → Bool) (n word : ℕ) → word < n → holds_below test n ≡ true → test word ≡ true
unfolding holds_below
test-below test zero word less all = absurd (omega arith)
test-below test (suc n) word less all = ground (arith, test-below test n word)

-- Every word, by its two bytes.
all_words : (ℕ → Bool) → Bool
unfolding holds_below
all_words test = holds_below (λ hi. holds_below (λ lo. test (hi * 256 + lo)) 256) 256

agree_words : (f g : ℕ → ℕ) → all_words (λ y. f y == g y) ≡ true → (x : ℕ) → x < 2 ^ 16 → f x ≡ g x
unfolding all_words
agree_words f g h x lt =
    let row =
      test-below (λ hi. holds_below (λ lo. f (hi * 256 + lo) == g (hi * 256 + lo)) 256) 256
        (x / 256) (omega arith) h in
    let cell =
      test-below (λ lo. f (x / 256 * 256 + lo) == g (x / 256 * 256 + lo)) 256 (x % 256)
        (omega arith) row in
    let split : x / 256 * 256 + x % 256 ≡ x = omega arith in
    subst (λ (y : ℕ). f y ≡ g y) split ((==_iff _ _).0 cell)

-- The bits that an answer takes from a question: opcode, RD and CD.
pub kept_bits :
    (x : ℕ)
    → x < 2 ^ 16
    → bit_or (bit_or qr_bit aa_bit) (bit_and x (bit_or (bit_or 0x7800 rd_bit) cd_bit))
      ≡ 0x8400 + x / 2048 % 16 * 2048 + x / 256 % 2 * 256 + x / 16 % 2 * 16
unfolding all_words
kept_bits = agree_words _ _ refl

pub low_or : (x : ℕ) → x < 2 ^ 16 → bit_or (x / 16 * 16) (x % 16) ≡ x
unfolding all_words
low_or = agree_words _ _ refl

pub high_bits : (x : ℕ) → x < 2 ^ 16 → bit_and x 0xFFF0 ≡ x / 16 * 16
unfolding all_words
high_bits = agree_words _ _ refl

pub low_bits : (x : ℕ) → x < 2 ^ 16 → bit_and x 0x000F ≡ x % 16
unfolding all_words
low_bits = agree_words _ _ refl

pub top_bit : (x : ℕ) → x < 2 ^ 16 → bit_and x qr_bit ≡ x / 32768 * 32768
unfolding all_words
top_bit = agree_words _ _ refl

pub rcode_number-lt : (rc : Rcode) → rcode_number rc < 6
rcode_number-lt rc = ground arith

-- A code in the four bits that are zero.
or_low : (a n : ℕ) → n < 16 → a * 16 + n < 2 ^ 16 → bit_or (a * 16) n ≡ a * 16 + n
or_low a n small h =
    let high : (a * 16 + n) / 16 * 16 ≡ a * 16 = omega arith in
    let low : (a * 16 + n) % 16 ≡ n = omega arith in
    subst (λ (y : ℕ). bit_or y n ≡ a * 16 + n) high
      (subst (λ (y : ℕ). bit_or ((a * 16 + n) / 16 * 16) y ≡ a * 16 + n) low
        (low_or (a * 16 + n) h))

-- For a flag word below 2^16 the word of an answer is, as a number, QR and AA, the word's opcode,
-- RD and CD bits at their places, and the code in the low four bits.
pub head_flags-eq :
    (fl : ℕ) (rc : Rcode)
    → fl < 2 ^ 16
    → head_flags fl rc
      ≡ (0x840 + fl / 2048 % 16 * 128 + fl / 256 % 2 * 16 + fl / 16 % 2) * 16 + rcode_number rc
unfolding head_flags
head_flags-eq fl rc h =
    let base : ℕ = 0x840 + fl / 2048 % 16 * 128 + fl / 256 % 2 * 16 + fl / 16 % 2 in
    let e : 0x8400 + fl / 2048 % 16 * 2048 + fl / 256 % 2 * 256 + fl / 16 % 2 * 16 ≡ base * 16 =
      omega arith in
    ap (λ (y : ℕ). bit_or y (rcode_number rc)) (kept_bits fl h ∙ e)
    ∙ or_low base (rcode_number rc) (omega (arith, rcode_number-lt rc))
        (omega (arith, rcode_number-lt rc))

-- For a flag word below 2^16 `with_rcode` puts the code in the place of the low four bits and
-- keeps the others.
pub with_rcode-eq :
    (fl : ℕ) (rc : Rcode) → fl < 2 ^ 16 → with_rcode fl rc ≡ fl / 16 * 16 + rcode_number rc
unfolding with_rcode
with_rcode-eq fl rc h =
    ap (λ (y : ℕ). bit_or y (rcode_number rc)) (high_bits fl h)
    ∙ or_low (fl / 16) (rcode_number rc) (omega (arith, rcode_number-lt rc))
        (omega (arith, rcode_number-lt rc))

pub head_flags-lt : (fl : ℕ) (rc : Rcode) → fl < 2 ^ 16 → head_flags fl rc < 2 ^ 16
head_flags-lt fl rc h = omega (arith, head_flags-eq fl rc h, rcode_number-lt rc)

-- A later code takes the place of the first.
pub with_rcode-head_flags :
    (fl : ℕ) (rc rc' : Rcode) → fl < 2 ^ 16 → with_rcode (head_flags fl rc) rc' ≡ head_flags fl rc'
with_rcode-head_flags fl rc rc' h =
    let base : ℕ = 0x840 + fl / 2048 % 16 * 128 + fl / 256 % 2 * 16 + fl / 16 % 2 in
    let kept : head_flags fl rc / 16 * 16 ≡ base * 16 =
      omega (arith, head_flags-eq fl rc h, rcode_number-lt rc) in
    with_rcode-eq (head_flags fl rc) rc' (head_flags-lt fl rc h)
    ∙ (ap (λ (n : ℕ). n + rcode_number rc') kept ∙ sym (head_flags-eq fl rc' h))
