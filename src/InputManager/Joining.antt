-- ===== src/InputManager/Joining.antt =====
-- A listener joins: addListener of BpInputManager and onTransact of BnInputManager in
-- frameworks/inputmanager/InputManager.cpp, with the driver between them.
use zeus_os.Base.{
  ℕ, zero, suc, ◌+◌, ◌*◌, ◌/◌, ◌≤◌, ◌<◌, ◌≡◌, ◌≢◌, refl, sym, ap, subst, ◌∙◌, Option, none, some,
  List, [], ◌∷◌, arith, length,
}
use zeus_os.Memory.{Mem, u32_mod}
use zeus_os.Parcel.{
  BinderIo, Txn, bio_init_from_txn, get_uint32, get_string8, get_fd, get_ref, put_obj,
}
use zeus_os.Binder.{Process, Returns, call_txn}
use zeus_os.Marshal.Items.{Item, uint32, fd, obj, ref, string8, put_items, put_item}
use zeus_os.Marshal.RoundTrip.{get_items, get_item, text_at, word, descriptor, text, reference}
use zeus_os.Marshal.Transit.{get_items-delivered}
use zeus_os.Marshal.Translation.{IsDelivered, Translation}
use zeus_os.InputManager.{Listening, on_transact}
use zeus_os.InputManager.Delivery.{IsSubscribed, asked_type, asked_handle, on_transact-IsSubscribed}
use zeus_os.Proxies.{Client, listener_message, accept_fds}

-- The number in the item at a place.
abbrev value_of : Item → ℕ
value_of (uint32 v) = v
value_of (ref v) = v
value_of _ = 0

abbrev value_at : ℕ → List Item → ℕ
value_at k [] = 0
value_at zero (i ∷ is) = value_of i
value_at (suc k) (i ∷ is) = value_at k is

text_at-reader : (m : Mem) (r : Option ℕ × ℕ × BinderIo) → (text_at m r).1 ≡ r.2
text_at-reader m (none, len, b) = refl
text_at-reader m (some p, len, b) = refl

-- What onTransact reads from a message of these items.
read_request :
    (type uid number handle : ℕ) (name : List ℕ) (b : BinderIo) (p : Process Listening)
    → get_items (word ∷ word ∷ word ∷ descriptor ∷ text ∷ reference ∷ []) p.mem b
      ≡ uint32 0 ∷ uint32 type ∷ uint32 uid ∷ fd number ∷ string8 (some name) ∷ ref handle ∷ []
    → ((get_uint32 p.mem b).0 ≡ 0) × (asked_type b p ≡ type) × (asked_handle b p ≡ handle)
unfolding get_items get_item
read_request type uid number handle name b p e =
    let b4 = (get_fd p.mem (get_uint32 p.mem (get_uint32 p.mem (get_uint32 p.mem b).1).1).1).1 in
    (
      ap (value_at 0) e,
      ap (value_at 1) e,
      ap (λ r. (get_ref p.mem r).0) (sym (text_at-reader p.mem (get_string8 p.mem b4)))
          ∙ ap (value_at 5) e,
    )

-- A client that adds a listener gets its events. The message of addListener, as the driver delivers
-- it, is accepted with the status 0, and from then on every event that shares a bit with the type
-- that the client gave is written to the descriptor that dup returned, after the writes to the
-- listeners before, which are unchanged. The name is not NULL and fits a parcel with the other
-- fields, which are 32-bit words, the driver has a handle for the listener that is not 0 and like
-- the descriptor has 32 bits, malloc returns twice and dup once.
pub on_transact-listener_message :
    {S : Type 0} (k : Client S) (client : Process S) (target type uid fd' this : ℕ) (name : List ℕ)
    (h : Translation) (t : Txn) (r : BinderIo) (p : Process Listening) (a b own : ℕ)
    (ms : List (Option ℕ)) (fds : List ℕ)
    → k.msg_buffer + 1024 < u32_mod
    → type < u32_mod
    → uid < u32_mod
    → fd' < u32_mod
    → this < u32_mod
    → 48 + (length name + 4) / 4 * 4 ≤ 1008
    → (let msg = put_obj this (listener_message type uid fd' (some name) k client) in
        IsDelivered h msg.mem (call_txn target 1 accept_fds msg.bio) p.mem t)
    → h.handle_for this ≢ 0
    → h.handle_for this < u32_mod
    → h.fd_for fd' < u32_mod
    → p.service.mallocs ≡ some a ∷ some b ∷ ms
    → p.service.dups ≡ own ∷ fds
    → Returns (on_transact t (bio_init_from_txn t) r p) (IsSubscribed type own p)
unfolding put_items put_item call_txn
on_transact-listener_message k client target type uid fd' this name h t r p a b own ms fds fits lt
      lu lf ln room d z lh ld memory dups =
    let e =
      get_items-delivered k.msg_buffer target 1 accept_fds client.mem
        (uint32 0 ∷ uint32 type ∷ uint32 uid ∷ fd fd' ∷ string8 (some name) ∷ obj this ∷ []) h p.mem
        t fits (omega arith, (lt, (lu, (lf, (omega arith, (ln, tt))))))
        (tt, (tt, (tt, (tt, (tt, (tt, tt))))))
        (omega arith, (lt, (lu, (ld, (omega arith, ((omega arith, lh), tt)))))) (omega arith)
        (omega arith) d in
    let (policy, types, handle) =
      read_request type uid (h.fd_for fd') (h.handle_for this) name (bio_init_from_txn t) p e in
    subst (λ y. Returns (on_transact t (bio_init_from_txn t) r p) (IsSubscribed y own p)) types
      (on_transact-IsSubscribed t (bio_init_from_txn t) r p a b own ms fds d.same_code policy
        (λ e. z (omega (arith, handle, e))) memory dups)
