-- ===== src/Access/Coders.antt =====
-- Coders for the examples of crates/storj-access: values as lists of numbers, read back with what
-- follows.
use storj_uplink.Common.Integers.{ℤ, pos, negsuc}
use storj_uplink.Common.{
  ℕ, zero, suc, ◌≡◌, refl, Bool, true, false, List, [], ◌∷◌, Option, none, some, ◌==◌,
  if◌then◌else◌, Bytes, length,
}

-- A value is written before the numbers that follow, and read back with them.
pub record Coder (A : Type 0) : Type 0 where
  pub put : A → Bytes → Bytes
  pub read : Bytes → Option (A × Bytes)
  pub back : (a : A) (rest : Bytes) → read (put a rest) ≡ some (a, rest)

abbrev pub read_number : Bytes → Option (ℕ × Bytes)
read_number [] = none
read_number (n ∷ rest) = some (n, rest)

abbrev pub number : Coder ℕ
number = record { put = λ n rest. n ∷ rest; read = read_number; back = λ n rest. refl }

abbrev pub flag_read : Bytes → Option (Bool × Bytes)
flag_read [] = none
flag_read (n ∷ rest) = some (n == 1, rest)

abbrev pub put_flag : Bool → Bytes → Bytes
put_flag true rest = 1 ∷ rest
put_flag false rest = 0 ∷ rest

pub flag_back : (b : Bool) (rest : Bytes) → flag_read (put_flag b rest) ≡ some (b, rest)
flag_back true rest = refl
flag_back false rest = refl

abbrev pub flag : Coder Bool
flag = record { put = put_flag; read = flag_read; back = flag_back }

abbrev pub sign_of : ℕ → ℕ → ℤ
sign_of s n = if s == 1 then negsuc n else pos n

abbrev pub int_read : Bytes → Option (ℤ × Bytes)
int_read (s ∷ n ∷ rest) = some (sign_of s n, rest)
int_read _ = none

abbrev pub put_int : ℤ → Bytes → Bytes
put_int (pos n) rest = 0 ∷ n ∷ rest
put_int (negsuc n) rest = 1 ∷ n ∷ rest

pub int_back : (n : ℤ) (rest : Bytes) → int_read (put_int n rest) ≡ some (n, rest)
int_back (pos n) rest = refl
int_back (negsuc n) rest = refl

abbrev pub int : Coder ℤ
int = record { put = put_int; read = int_read; back = int_back }

abbrev pub chain {ℓ κ} : {A : Type ℓ} {B : Type κ} → Option A → (A → Option B) → Option B
chain none f = none
chain (some a) f = f a

pub record Pair (A B : Type 0) : Type 0 where
  pub fst : A
  pub snd : B

abbrev pub pair : {A B : Type 0} → A → B → Pair A B
pair a b = record { fst = a; snd = b }

module _ {A B : Type 0} (a : Coder A) (b : Coder B) where
  abbrev pub put_both : Pair A B → Bytes → Bytes
  put_both p rest = a.put p.fst (b.put p.snd rest)

  abbrev pub read_both : Bytes → Option (Pair A B × Bytes)
  read_both bytes =
      chain {B = Pair A B × Bytes} (a.read bytes)
        (λ r. chain {B = Pair A B × Bytes} (b.read r.1) (λ q. some (pair r.0 q.0, q.1)))

  pub both_back : (p : Pair A B) (rest : Bytes) → read_both (put_both p rest) ≡ some (p, rest)
  both_back p rest = rw (a.back p.fst (b.put p.snd rest)) (rw (b.back p.snd rest) refl)

  abbrev pub both : Coder (Pair A B)
  both = record { put = put_both; read = read_both; back = both_back }

module _ {A : Type 0} (a : Coder A) where
  abbrev pub put_option : Option A → Bytes → Bytes
  put_option none rest = 0 ∷ rest
  put_option (some x) rest = 1 ∷ a.put x rest

  abbrev pub read_option : Bytes → Option (Option A × Bytes)
  read_option [] = none
  read_option (n ∷ rest) =
      if n == 0 then some (none, rest) else chain (a.read rest) (λ r. some (some r.0, r.1))

  pub option_back : (o : Option A) (rest : Bytes) → read_option (put_option o rest) ≡ some (o, rest)
  option_back none rest = refl
  option_back (some x) rest = rw (a.back x rest) refl

  abbrev pub option : Coder (Option A)
  option = record { put = put_option; read = read_option; back = option_back }

  abbrev pub put_items : List A → Bytes → Bytes
  put_items [] rest = rest
  put_items (x ∷ xs) rest = a.put x (put_items xs rest)

  abbrev pub read_items : ℕ → Bytes → Option (List A × Bytes)
  read_items zero bytes = some ([], bytes)
  read_items (suc n) bytes =
      chain (a.read bytes) (λ r. chain (read_items n r.1) (λ q. some (r.0 ∷ q.0, q.1)))

  pub items_back :
      (xs : List A) (rest : Bytes) → read_items (length xs) (put_items xs rest) ≡ some (xs, rest)
  items_back [] rest = refl
  items_back (x ∷ xs) rest = rw (a.back x (put_items xs rest)) (rw (items_back xs rest) refl)

  abbrev pub read_list : Bytes → Option (List A × Bytes)
  read_list [] = none
  read_list (n ∷ rest) = read_items n rest

  abbrev pub list : Coder (List A)
  list = record {
    put = λ xs rest. length xs ∷ put_items xs rest;
    read = read_list;
    back = items_back;
  }

module _ {A B : Type 0} (a : Coder A) (to : B → A) (from : A → B)
    (inverse : (b : B) → from (to b) ≡ b) where
  pub iso_back :
      (b : B) (rest : Bytes)
      → chain {B = B × Bytes} (a.read (a.put (to b) rest)) (λ r. some (from r.0, r.1))
        ≡ some (b, rest)
  iso_back b rest = rw (a.back (to b) rest) (rw (inverse b) refl)

  abbrev pub iso : Coder B
  iso = record {
    put = λ b rest. a.put (to b) rest;
    read = λ bytes. chain {B = B × Bytes} (a.read bytes) (λ r. some (from r.0, r.1));
    back = iso_back;
  }

abbrev pub bytes : Coder Bytes
bytes = list number
