-- ===== src/Uid/Shape.antt =====
-- The ids of users have twelve characters, all lower case letters or digits.
use native.Mathlib.Nat.{pow-suc}
use storebirth.Base.{
  ℕ, zero, suc, ◌+◌, ◌-◌, ◌*◌, ◌/◌, ◌%◌, ◌^◌, ◌≤◌, ◌<◌, ◌≡◌, ◌∙◌, true, ◌⊎◌, [], ◌∷◌, Text, arith,
  List, inl, inr, replicate, take, ltb, leb, get_or, if◌then◌else◌, Bool-cases, length, All,
  All-append, All-take, All-replicate, length-append, length-take, length-replicate,
}
use storebirth.Uid.{
  word_list, before_at, letters, prefix, decimal, pad_decimal, power_of_ten, random_num,
  generate_uid,
}

-- A lower case letter or a digit.
abbrev pub IsAlnum : ℕ → Type 0
IsAlnum c = ((b'a' ≤ c) × (c ≤ b'z')) ⊎ ((b'0' ≤ c) × (c ≤ b'9'))

letters-IsAlnum : (s : Text) → All IsAlnum (letters s)
unfolding letters
letters-IsAlnum [] = tt
letters-IsAlnum (c ∷ s) = ground (arith, letters-IsAlnum s)

decimal-IsAlnum : (fuel n : ℕ) (acc : Text) → All IsAlnum acc → All IsAlnum (decimal fuel n acc)
unfolding decimal
decimal-IsAlnum zero n acc h = h
decimal-IsAlnum (suc fuel) n acc h =
    ground (arith, decimal-IsAlnum fuel (n / 10) ((b'0' + n % 10) ∷ acc))

-- Below 10 ^ k there are at most k digits.
length-decimal :
    (k fuel n : ℕ) (acc : Text) → n < 10 ^ suc k → length (decimal fuel n acc) ≤ suc k + length acc
unfolding decimal
length-decimal k zero n acc h = omega arith
length-decimal zero (suc fuel) n acc h = ground arith
length-decimal (suc k) (suc fuel) n acc h = ground (
  arith,
  length-decimal k fuel (n / 10) ((b'0' + n % 10) ∷ acc) (omega (arith, pow-suc 10 (suc k), h)),
)

pub length-pad_decimal : (k n : ℕ) → n < 10 ^ suc k → length (pad_decimal (suc k) n) ≡ suc k
unfolding pad_decimal
length-pad_decimal k n h = omega (
  arith,
  length-decimal k (suc n) n [] h,
  length-append (replicate (suc k - length (decimal (suc n) n [])) b'0') (decimal (suc n) n []),
  length-replicate {A = ℕ} (suc k - length (decimal (suc n) n [])) b'0',
)

pad_decimal-IsAlnum : (k n : ℕ) → All IsAlnum (pad_decimal k n)
unfolding pad_decimal
pad_decimal-IsAlnum k n =
    All-append IsAlnum _ _
      (All-replicate IsAlnum (k - length (decimal (suc n) n [])) b'0' (inr (omega arith)))
      (decimal-IsAlnum (suc n) n [] tt)

-- A word of the list has five or six letters.
abbrev IsPrefix : Text → Type 0
IsPrefix p = (4 ≤ length p) × (length p ≤ 6) × All IsAlnum p

word_list-IsPrefix : All IsPrefix word_list
word_list-IsPrefix = ground arith

get_or-All :
    (P : Text → Type 0) (ws : List Text) (i : ℕ) → All P ws → i < length ws → P (get_or ws i [])
get_or-All P [] i h lt = elim lt [ ]
get_or-All P (w ∷ ws) zero h lt = h.0
get_or-All P (w ∷ ws) (suc i) h lt = get_or-All P ws i h.1 (omega arith)

take_letters-IsPrefix :
    (ls : Text)
    → All IsAlnum ls
    → leb 4 (length ls) ≡ true
    → IsPrefix (take (if ltb (length ls) 6 then length ls else 6) ls)
take_letters-IsPrefix ls h e =
    let n = if ltb (length ls) 6 then length ls else 6 in
    (ground (arith, length-take n ls), ground (arith, length-take n ls), All-take IsAlnum n ls h)

prefix-IsPrefix : (email : Text) (byte : ℕ) → IsPrefix (prefix email byte)
unfolding prefix
prefix-IsPrefix email byte =
    let ls = letters (before_at email []) in
    elim (Bool-cases (leb 4 (length ls))) [
      | inl e ↦ rw (e, prefix) (take_letters-IsPrefix ls (letters-IsAlnum (before_at email [])) e)
      | inr e ↦
          rw (e, prefix)
            (get_or-All IsPrefix word_list (byte % 50) word_list-IsPrefix (omega arith))
    ]

power_of_ten-eq : (k acc : ℕ) → power_of_ten k acc ≡ acc * 10 ^ k
unfolding power_of_ten
power_of_ten-eq zero acc = omega arith
power_of_ten-eq (suc k) acc = power_of_ten-eq k (acc * 10) ∙ (rw (pow-suc 10 k) (omega arith))

ten_power-pos : (k : ℕ) → 0 < 10 ^ k
ten_power-pos zero = omega arith
ten_power-pos (suc k) = omega (arith, ten_power-pos k, pow-suc 10 k)

-- The digits fill the id up to twelve.
digits_of_uid : (k num : ℕ) → 0 < k → length (pad_decimal k (num % power_of_ten k 1)) ≡ k
digits_of_uid zero num h = elim h [ ]
digits_of_uid (suc k) num h =
    length-pad_decimal k _ (rw (power_of_ten-eq (suc k) 1) (omega (arith, ten_power-pos (suc k))))

-- Whatever the email and the random bytes, an id has twelve characters, each a lower case letter
-- or a digit.
pub generate_uid-shape :
    (email : Text) (byte b0 b1 b2 b3 : ℕ)
    → (length (generate_uid email byte b0 b1 b2 b3) ≡ 12)
      × All IsAlnum (generate_uid email byte b0 b1 b2 b3)
unfolding generate_uid
generate_uid-shape email byte b0 b1 b2 b3 =
    let p = prefix email byte in
    let h = prefix-IsPrefix email byte in
    let k = 12 - length p in
    let ds = pad_decimal k (random_num b0 b1 b2 b3 % power_of_ten k 1) in
    (
      omega (arith, length-append p ds, digits_of_uid k (random_num b0 b1 b2 b3) (omega arith)),
      All-append IsAlnum p ds h.2
          (pad_decimal-IsAlnum k (random_num b0 b1 b2 b3 % power_of_ten k 1)),
    )
