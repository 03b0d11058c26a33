-- ===== src/Memory.antt =====
-- The memory of a process on the 32-bit little-endian target: addresses to bytes. The C++ code of
-- system/binder and frameworks reads and writes it through casts of `unsigned char *`.
use zeus_os.Base.{
  ℕ, zero, suc, ◌+◌, ◌*◌, ◌/◌, ◌%◌, ◌^◌, ◌≤◌, ◌<◌, ◌≡◌, refl, sym, ap, ◌⊎◌, Bool, List, [], ◌∷◌,
  ◌++◌, ◌∙◌, arith, ltb, ◌==◌, if◌then◌else◌, length,
}
use mathlib.Core.List.{append-nil}

abbrev pub u32_mod : ℕ
u32_mod = 2 ^ 32

-- Memory and words are read at any address; an `int` is its bit pattern, below 2 ^ 32.
abbrev pub Mem : Type 0
Mem = ℕ → ℕ

-- (int)a < (int)b on bit patterns: adding 2 ^ 31 turns the signed order into the unsigned one.
abbrev pub int_lt : ℕ → ℕ → Bool
int_lt a b = ltb ((a + 2 ^ 31) % 2 ^ 32) ((b + 2 ^ 31) % 2 ^ 32)

-- The bytes from an address on.
unfoldable pub load : Mem → ℕ → ℕ → List ℕ
load m p zero = []
load m p (suc n) = m p ∷ load m (p + 1) n

-- memcpy of the listed bytes to an address.
unfoldable pub store : Mem → ℕ → List ℕ → Mem
store m p [] a = m a
store m p (b ∷ bs) a = if a == p then b else store m (p + 1) bs a

-- An `unsigned int` at an address.
unfoldable pub load_word : Mem → ℕ → ℕ
load_word m p = m p + 256 * m (p + 1) + 65536 * m (p + 2) + 16777216 * m (p + 3)

unfoldable pub word_bytes : ℕ → List ℕ
word_bytes w = w % 256 ∷ w / 256 % 256 ∷ w / 65536 % 256 ∷ w / 16777216 % 256 ∷ []

pub length-word_bytes : (w : ℕ) → length (word_bytes w) ≡ 4
unfolding word_bytes
length-word_bytes w = refl

-- A store changes its own bytes only.
pub store_frame :
    (m : Mem) (p : ℕ) (bs : List ℕ) (a : ℕ) → (a < p) ⊎ (p + length bs ≤ a) → store m p bs a ≡ m a
unfolding store
store_frame m p [] a h = refl
store_frame m p (b ∷ bs) a h = ground (arith, store_frame m (p + 1) bs a)

-- What was stored is read back, also in front of further bytes.
pub load_word-store :
    (m : Mem) (p w : ℕ) (rest : List ℕ)
    → w < u32_mod
    → load_word (store m p (word_bytes w ++ rest)) p ≡ w
unfolding load_word store word_bytes
load_word-store m p w rest h = ground arith

-- Two memories with the same bytes in a range give the same reads there.
pub load-agree :
    (m m' : Mem) (p n : ℕ) → ((a : ℕ) → p ≤ a → a < p + n → m' a ≡ m a) → load m' p n ≡ load m p n
unfolding load
load-agree m m' p zero h = refl
load-agree m m' p (suc n) h = ground (
  arith,
  h p (omega arith) (omega arith),
  load-agree m m' (p + 1) n (λ a l u. h a (omega arith) (omega arith)),
)

pub load_word-agree :
    (m m' : Mem) (p : ℕ)
    → ((a : ℕ) → p ≤ a → a < p + 4 → m' a ≡ m a)
    → load_word m' p ≡ load_word m p
unfolding load_word
load_word-agree m m' p h = omega (
  arith,
  h p (omega arith) (omega arith),
  h (p + 1) (omega arith) (omega arith),
  h (p + 2) (omega arith) (omega arith),
  h (p + 3) (omega arith) (omega arith),
)

store_head : (m : Mem) (p b : ℕ) (bs : List ℕ) → store m p (b ∷ bs) p ≡ b
unfolding store
store_head m p b bs = ground arith

-- The bytes of the tail of a store, seen from behind its first byte.
store_tail :
    (m : Mem) (p b : ℕ) (bs : List ℕ) (a : ℕ) → p < a → store m p (b ∷ bs) a ≡ store m (p + 1) bs a
unfolding store
store_tail m p b bs a h = ground arith

pub load_word-store_self :
    (m : Mem) (p w : ℕ) → w < u32_mod → load_word (store m p (word_bytes w)) p ≡ w
load_word-store_self m p w h = rw (← append-nil (word_bytes w)) (load_word-store m p w [] h)

pub load-store :
    (m : Mem) (p : ℕ) (bs rest : List ℕ) → load (store m p (bs ++ rest)) p (length bs) ≡ bs
unfolding load
load-store m p [] rest = refl
load-store m p (b ∷ bs) rest = ground (
  arith,
  store_head m p b (bs ++ rest),
  load-store m (p + 1) bs rest,
  load-agree (store m (p + 1) (bs ++ rest)) (store m p (b ∷ (bs ++ rest))) (p + 1) (length bs)
      (λ a l u. store_tail m p b (bs ++ rest) a (omega arith)),
)

-- Reading back the whole of a store, at an address and a length that are equal to its own.
pub load-store_self :
    (m : Mem) (p q n : ℕ) (bs : List ℕ) → q ≡ p → n ≡ length bs → load (store m p bs) q n ≡ bs
load-store_self m p q n bs e l =
    rw (e, l)
      (ap (λ xs. load (store m p xs) p (length bs)) (sym (append-nil bs)) ∙ load-store m p bs [])

-- A store of two runs of bytes is one store behind the other.
pub store-append :
    (m : Mem) (p : ℕ) (xs ys : List ℕ) (a : ℕ)
    → p + length xs ≤ a
    → store m p (xs ++ ys) a ≡ store m (p + length xs) ys a
unfolding store
store-append m p [] ys a h = ap (λ (q : ℕ). store m q ys a) (omega arith)
store-append m p (x ∷ xs) ys a h =
    store_tail m p x (xs ++ ys) a (omega arith)
    ∙ store-append m (p + 1) xs ys a (omega arith)
    ∙ ap (λ (q : ℕ). store m q ys a) (omega arith)
