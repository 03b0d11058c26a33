-- ===== src/Marshal/Requests.antt =====
-- Messages that begin as those of the proxies do, with the policy word and a text: the `put` and `get`
-- functions of system/binder/Parcel.cpp on the two sides of a transaction.
use zeus_os.Base.{
  ℕ, zero, suc, ◌+◌, ◌-◌, ◌*◌, ◌/◌, ◌≤◌, ◌<◌, ◌≡◌, ◌≢◌, refl, sym, ap, subst, ◌∙◌, false, some,
  List, [], ◌∷◌, ◌++◌, arith, length, length-append, All,
}
use zeus_os.Memory.{Mem, u32_mod, load, load_word}
use zeus_os.Parcel.{BinderIo, Txn, bio_init_from_txn, get_uint32, get_string8, new_parcel}
use zeus_os.Binder.{call_txn}
use zeus_os.Marshal.Bounds.{InBuffer, Extends}
use zeus_os.Marshal.Items.{Item, uint32, string8, put_items, put_items-Extends}
use zeus_os.Marshal.Layout.{Holds, IsSendable}
use zeus_os.Marshal.Stored.{put_items-HoldsAll}
use zeus_os.Marshal.Room.{put_items_room}
use zeus_os.Marshal.RoundTrip.{At, get_uint32_lem, get_string8_lem, load-prefix}
use zeus_os.ServiceManager.Texts.{IsText}
use zeus_os.Marshal.Delivery.{fresh_parcel, new_parcel-InBuffer}

-- The message of a transaction begins with a text behind the policy word.
pub record IsNamed (m : Mem) (t : Txn) (name : List ℕ) : Type 0 where
  pub in_space : t.buffer + t.data_size < u32_mod
  pub policy : Holds m t.buffer t.offsets (t.offsets_size / 4) t.buffer (uint32 0)
  pub named : Holds m t.buffer t.offsets (t.offsets_size / 4) (t.buffer + 4) (string8 (some name))
  pub short : length name + 4 < u32_mod
  pub room : 8 + (length name + 4) / 4 * 4 ≤ t.data_size

-- The address behind the text.
abbrev pub behind : Txn → List ℕ → ℕ
behind t name = t.buffer + 4 + (4 + (length name + 4) / 4 * 4)

module _ (m : Mem) (t : Txn) (name : List ℕ) (q : IsNamed m t name) where
  abbrev pub unread : BinderIo
  unread = (get_uint32 m (bio_init_from_txn t)).1

  pub policy_read :
      ((get_uint32 m (bio_init_from_txn t)).0 ≡ 0)
      × At t.buffer t.offsets (t.offsets_size / 4) (t.buffer + 4) (t.data_size - 4) unread
  unfolding bio_init_from_txn
  policy_read =
      let (v, a) =
        get_uint32_lem {p = t.buffer} {left = t.data_size} m (bio_init_from_txn t)
          (refl, refl, refl, refl, refl) q.in_space (omega (arith, q.room)) in
      (v ∙ q.policy, a)

  pub name_read :
      ((get_string8 m unread).0 ≡ some (t.buffer + 4 + 4))
      × ((get_string8 m unread).1 ≡ length name)
      × At t.buffer t.offsets
          (t.offsets_size / 4)
          (behind t name)
          (t.data_size - 4 - (4 + (length name + 4) / 4 * 4))
          (get_string8 m unread).2
  name_read =
      get_string8_lem m unread policy_read.1 (omega (arith, q.in_space, q.room)) name
        (omega (arith, q.short)) (omega (arith, q.room)) q.named.0

  pub name_spelled : load m (t.buffer + 4 + 4) (length name) ≡ name
  name_spelled =
      load-prefix m (t.buffer + 4 + 4) name (0 ∷ []) (rw (length-append name (0 ∷ [])) q.named.1)

last_loaded :
    (m : Mem) (p : ℕ) (xs : List ℕ) (x : ℕ)
    → load m p (length (xs ++ x ∷ [])) ≡ xs ++ x ∷ []
    → m (p + length xs) ≡ x
unfolding load
last_loaded m p [] x e = ground (arith, e)
last_loaded m p (y ∷ xs) x e = ground (arith, e, last_loaded m (p + 1) xs x (ground (arith, e)))

-- The text of a request ends with its terminator.
pub request-IsText :
    (m : Mem) (t : Txn) (name : List ℕ)
    → IsNamed m t name
    → All (λ c. c ≢ 0) name
    → IsText m (t.buffer + 4 + 4) name
request-IsText m t name q nonzero = record {
  spelled = name_spelled m t name q;
  nonzero = nonzero;
  ended = last_loaded m (t.buffer + 4 + 4) name 0 (rw (length-append name (0 ∷ [])) q.named.1);
}

-- The driver copies the data of a transaction into the memory of the receiver.
pub record IsCopy (m : Mem) (t : Txn) (m' : Mem) (t' : Txn) : Type 0 where
  pub same_size : t'.data_size ≡ t.data_size
  pub fits : t'.buffer + t'.data_size < u32_mod
  pub same_bytes : (k : ℕ) → k < t.data_size → m' (t'.buffer + k) ≡ m (t.buffer + k)

pub load_word-copy :
    (m m' : Mem) (p p' : ℕ)
    → ((k : ℕ) → k < 4 → m' (p' + k) ≡ m (p + k))
    → load_word m' p' ≡ load_word m p
unfolding load_word
load_word-copy m m' p p' h = omega (
  arith,
  h 0 (omega arith),
  h 1 (omega arith),
  h 2 (omega arith),
  h 3 (omega arith),
  ap m' (the_zero p'),
  ap m (the_zero p),
)
  where
    the_zero : (q : ℕ) → q + 0 ≡ q
    the_zero q = omega arith

pub load-copy :
    (m m' : Mem) (p p' n : ℕ)
    → ((k : ℕ) → k < n → m' (p' + k) ≡ m (p + k))
    → load m' p' n ≡ load m p n
unfolding load
load-copy m m' p p' zero h = refl
load-copy m m' p p' (suc n) h = ground (
  arith,
  first,
  load-copy m m' (p + 1) (p' + 1) n
      (λ k l. ap m' (omega arith) ∙ h (k + 1) (omega arith) ∙ ap m (omega arith)),
)
  where
    first : m' p' ≡ m p
    first = ap m' (omega arith) ∙ h 0 (omega arith) ∙ ap m (omega arith)

-- A copy begins with the same text.
pub copy-IsNamed :
    (m : Mem) (t : Txn) (m' : Mem) (t' : Txn) (name : List ℕ)
    → IsNamed m t name
    → IsCopy m t m' t'
    → IsNamed m' t' name
copy-IsNamed m t m' t' name q c = record {
  in_space = c.fits;
  policy =
      load_word-copy m m' t.buffer t'.buffer (λ k l. c.same_bytes k (omega (arith, q.room)))
      ∙ q.policy;
  named = (
    load_word-copy m m' (t.buffer + 4) (t'.buffer + 4) (λ k l. shifted 4 k (omega (arith, q.room)))
        ∙ q.named.0,
    load-copy m m' (t.buffer + 4 + 4) (t'.buffer + 4 + 4) (length name + 1)
          (λ k l. ap m' (omega arith) ∙ shifted 8 k (omega (arith, q.room)) ∙ ap m (omega arith))
        ∙ q.named.1,
  );
  short = q.short;
  room = omega (arith, q.room, c.same_size);
}
  where
    shifted : (d k : ℕ) → d + k < t.data_size → m' (t'.buffer + d + k) ≡ m (t.buffer + d + k)
    shifted d k l = ap m' (omega arith) ∙ c.same_bytes (d + k) l ∙ ap m (omega arith)

-- What the proxies send begins so.
pub put_items-IsNamed :
    (base target code flags : ℕ) (m : Mem) (name : List ℕ)
    → base + 1024 < u32_mod
    → 8 + (length name + 4) / 4 * 4 ≤ 1008
    → (let s = put_items (uint32 0 ∷ string8 (some name) ∷ []) (fresh_parcel m base) in
        IsNamed s.mem (call_txn target code flags s.bio) name)
unfolding call_txn new_parcel
put_items-IsNamed base target code flags m name u room =
    let is : List Item = uint32 0 ∷ string8 (some name) ∷ [] in
    let s = fresh_parcel m base in
    let t = put_items is s in
    let hs : InBuffer base s.bio = new_parcel-InBuffer base u in
    let x : Extends base s t = put_items-Extends is s hs in
    let readable : All IsSendable is = (omega arith, (omega arith, tt)) in
    let down : t.bio.flags.overflow ≡ false =
      put_items_room is s hs readable refl (omega arith) (omega arith) in
    let (held, size) =
      put_items-HoldsAll ((t.bio.offs - base) / 4) is s hs readable down (omega (arith, x)) in
    let start : base + 16 ≡ t.bio.data0 = sym x.in_buffer.data0_at in
    record {
      in_space = omega (arith, x.in_buffer, size);
      policy = subst (λ q. load_word t.mem q ≡ 0) start held.0;
      named =
          subst
            (λ q.
              (load_word t.mem (q + 4) ≡ length name)
              × (load t.mem (q + 4 + 4) (length name + 1) ≡ name ++ 0 ∷ []))
            start held.1.0;
      short = omega arith;
      room = omega (arith, x.in_buffer, size);
    }
