-- ===== src/Uid.antt =====
-- handlers/auth.utils.go: GenerateUID, the ids of users, and its helpers. The bytes that
-- crypto/rand yields are arguments.
pub mod Shape
pub mod Owner
use storebirth.Base.{
  ℕ, zero, suc, ◌+◌, ◌-◌, ◌*◌, ◌/◌, ◌%◌, ◌^◌, List, [], ◌∷◌, ◌++◌, Bool, ◌&&◌, ◌||◌, Text, codes,
  ltb, leb, ◌==◌, if◌then◌else◌, length, take, replicate, get_or,
}

abbrev word_list : List Text
word_list =
    codes "apple"
    ∷ codes "banana"
    ∷ codes "cherry"
    ∷ codes "dragon"
    ∷ codes "eagle"
    ∷ codes "falcon"
    ∷ codes "grape"
    ∷ codes "honey"
    ∷ codes "ivory"
    ∷ codes "jungle"
    ∷ codes "koala"
    ∷ codes "lemon"
    ∷ codes "mango"
    ∷ codes "noble"
    ∷ codes "ocean"
    ∷ codes "panda"
    ∷ codes "queen"
    ∷ codes "river"
    ∷ codes "storm"
    ∷ codes "tiger"
    ∷ codes "ultra"
    ∷ codes "vivid"
    ∷ codes "whale"
    ∷ codes "xenon"
    ∷ codes "yacht"
    ∷ codes "zebra"
    ∷ codes "alpha"
    ∷ codes "brave"
    ∷ codes "coral"
    ∷ codes "delta"
    ∷ codes "ember"
    ∷ codes "frost"
    ∷ codes "ghost"
    ∷ codes "haven"
    ∷ codes "index"
    ∷ codes "joker"
    ∷ codes "karma"
    ∷ codes "lunar"
    ∷ codes "maple"
    ∷ codes "nexus"
    ∷ codes "orbit"
    ∷ codes "pixel"
    ∷ codes "quest"
    ∷ codes "radar"
    ∷ codes "solar"
    ∷ codes "terra"
    ∷ codes "unity"
    ∷ codes "venom"
    ∷ codes "wired"
    ∷ codes "zesty"
    ∷ []

-- email[:atIndex], where atIndex is 0 if there is no `@`
before_at : Text → Text → Text
before_at [] seen = []
before_at (c ∷ s) seen = let rest = before_at s (seen ++ c ∷ []) in if c == b'@' then seen else rest

is_letter : ℕ → Bool
is_letter c = (leb b'a' c && leb c b'z') || (leb b'A' c && leb c b'Z')

letters : Text → Text
unfolding is_letter
letters [] = []
letters (c ∷ s) =
    let rest = letters s in
    if is_letter c then (if leb b'A' c && leb c b'Z' then c + 32 else c) ∷ rest else rest

-- The prefix: four to six letters of the email, or the word that a random byte picks.
prefix : Text → ℕ → Text
unfolding letters before_at
prefix email byte =
    let ls = letters (before_at email []) in
    if leb 4 (length ls)
    then take (if ltb (length ls) 6 then length ls else 6) ls
    else get_or word_list (byte % length word_list) []

-- Four bytes, big endian. An `int` has 64 bits, so the value is not negative.
random_num : ℕ → ℕ → ℕ → ℕ → ℕ
random_num b0 b1 b2 b3 = b0 * 2 ^ 24 + b1 * 2 ^ 16 + b2 * 2 ^ 8 + b3

-- The decimal digits of `n`, before those of `acc`; one round for each digit, and no number has
-- more digits than its value plus one.
decimal : ℕ → ℕ → Text → Text
decimal zero n acc = acc
decimal (suc fuel) n acc =
    let rest = decimal fuel (n / 10) ((b'0' + n % 10) ∷ acc) in
    if ltb n 10 then (b'0' + n % 10) ∷ acc else rest

-- %d, of a number that is not negative
pub print_decimal : ℕ → Text
unfolding decimal
print_decimal n = decimal (suc n) n []

-- %0*d
pub pad_decimal : ℕ → ℕ → Text
unfolding decimal
pad_decimal width n = let ds = decimal (suc n) n [] in replicate (width - length ds) b'0' ++ ds

-- The loop that multiplies `mod` by ten, `digitCount` times.
power_of_ten : ℕ → ℕ → ℕ
power_of_ten zero acc = acc
power_of_ten (suc n) acc = power_of_ten n (acc * 10)

unfoldable pub generate_uid : Text → ℕ → ℕ → ℕ → ℕ → ℕ → Text
unfolding prefix random_num pad_decimal power_of_ten
generate_uid email byte b0 b1 b2 b3 =
    let p = prefix email byte in
    let digit_count = 12 - length p in
    p ++ pad_decimal digit_count (random_num b0 b1 b2 b3 % power_of_ten digit_count 1)
