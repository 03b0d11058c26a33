-- ===== src/ServiceManager/Clients.antt =====
-- What BpServiceManager of frameworks/servicemanager/ServiceManager.cpp sends, as the driver delivers
-- it to BnServiceManager.
use zeus_os.Base.{
  ℕ, ◌+◌, ◌*◌, ◌/◌, ◌≤◌, ◌<◌, ◌≡◌, ◌≢◌, refl, subst, inr, Option, some, List, [], ◌∷◌, arith,
  length, All,
}
use zeus_os.Memory.{Mem, u32_mod}
use zeus_os.Parcel.{Txn, bio_init_from_txn, new_parcel, put_obj, binder_type_handle}
use zeus_os.Marshal.Layout.{ObjectAt}
use zeus_os.Binder.{Process, Returns, call_txn}
use zeus_os.Marshal.Items.{Item, uint32, string8, ref, put_items, put_item}
use zeus_os.Marshal.Delivery.{fresh_parcel}
use zeus_os.Marshal.Requests.{copy-IsNamed, put_items-IsNamed}
use zeus_os.Marshal.Translation.{
  IsDelivered, Translation, IsSent, delivered-IsCopy, put_obj-IsSent, delivered-IsSent,
  put_items_fresh,
}
use zeus_os.ServiceManager.{Registry, on_transact}
use zeus_os.ServiceManager.Nodes.{IsWellFormed}
use zeus_os.ServiceManager.Directory.{IsRequest, IsRegistration}
use zeus_os.ServiceManager.Finding.{reply_read, on_transact-reply_read}
use zeus_os.Proxies.{Client, service_message}

-- The message of getService comes to the manager as a request for the name.
delivered-IsRequest :
    (base code : ℕ) (m : Mem) (name : List ℕ) (h : Translation) (m' : Mem) (t' : Txn)
    → base + 1024 < u32_mod
    → length name ≤ 127
    → (let s = put_items (uint32 0 ∷ string8 (some name) ∷ []) (fresh_parcel m base) in
        IsDelivered h s.mem (call_txn 0 code 0 s.bio) m' t')
    → IsRequest m' t' name
unfolding call_txn
delivered-IsRequest base code m name h m' t' fits short d =
    let is : List Item = uint32 0 ∷ string8 (some name) ∷ [] in
    let u = put_items is (fresh_parcel m base) in
    let (x, _, _, o) =
      put_items_fresh base m is fits (omega arith, (omega arith, tt)) (omega arith) (omega arith) in
    record {
      to_manager = d.same_target refl;
      message =
          copy-IsNamed u.mem (call_txn 0 code 0 u.bio) m' t' name
            (put_items-IsNamed base 0 code 0 m name fits (omega arith))
            (delivered-IsCopy h u.mem (call_txn 0 code 0 u.bio) m' t' d
              (omega (arith, o, x.in_buffer)));
      short = short;
    }

-- The message of addService comes as a registration of the handle that stands for the node.
delivered-IsRegistration :
    (base ptr : ℕ) (m : Mem) (name : List ℕ) (h : Translation) (m' : Mem) (t' : Txn)
    → base + 1024 < u32_mod
    → ptr < u32_mod
    → length name ≤ 127
    → (let s =
          put_obj ptr (put_items (uint32 0 ∷ string8 (some name) ∷ []) (fresh_parcel m base)) in
        IsDelivered h s.mem (call_txn 0 3 0 s.bio) m' t')
    → IsRegistration m' t' name (h.handle_for ptr)
unfolding call_txn
delivered-IsRegistration base ptr m name h m' t' fits lt short d =
    let is : List Item = uint32 0 ∷ string8 (some name) ∷ [] in
    let u = put_items is (fresh_parcel m base) in
    let v = put_obj ptr u in
    let (x0, f, before, first) =
      put_items_fresh base m is fits (omega arith, (omega arith, tt)) (omega arith) (omega arith) in
    let sent : IsSent base ptr u v =
      put_obj-IsSent base ptr u x0.in_buffer f lt (omega (arith, before)) (omega (arith, first)) in
    let (copied, object) =
      delivered-IsSent base ptr 0 3 0 h u v m' t' sent x0.in_buffer (omega (arith, first)) d in
    let named =
      copy-IsNamed u.mem (call_txn 0 3 0 u.bio) m' _ name
        (put_items-IsNamed base 0 3 0 m name fits (omega arith)) copied in
    let long : 24 + (length name + 4) / 4 * 4 ≤ t'.data_size =
      omega (arith, d.same_size, sent.size, before, sent.extends.in_buffer) in
    record {
      request = record {
        to_manager = d.same_target refl;
        message = record {
          in_space = d.fits;
          policy = named.policy;
          named = named.named;
          short = named.short;
          room = omega (arith, long);
        };
        short = short;
      };
      to_add = d.same_code;
      spacious = long;
      object =
          subst
            (λ q.
              ObjectAt m' t'.buffer t'.offsets (t'.offsets_size / 4) q binder_type_handle
                (h.handle_for ptr))
            (omega (arith, before)) object;
    }

-- A service that one client registers is found by another. The message of addService with a name
-- and a node, as the driver delivers it, returns with the status 0; and the message of getService
-- with that name, from any client and in whatever memory it arrives, is answered with the handle that
-- the manager has for the node, as it is read from the reply, also where the name had another handle
-- before, and leaves the registry as it is. The name has 1 to 127 bytes, none of them 0, the handle is
-- not 0, malloc has memory and the registry is well-formed.
pub on_transact-service_message :
    {S T : Type 0} (server : Client S) (client : Client T) (ps : Process S) (pc : Process T)
    (h h2 : Translation) (name : List ℕ) (ptr a base base2 : ℕ) (rest : List (Option ℕ))
    (p : Process Registry) (t t2 : Txn) (m2 : Mem)
    → server.msg_buffer + 1024 < u32_mod
    → client.msg_buffer + 1024 < u32_mod
    → base2 + 1024 < u32_mod
    → 1 ≤ length name
    → length name ≤ 127
    → All (λ c. c ≢ 0) name
    → ptr < u32_mod
    → h.handle_for ptr ≢ 0
    → h.handle_for ptr < u32_mod
    → (let msg = put_obj ptr (service_message (some name) server ps) in
        IsDelivered h msg.mem (call_txn 0 3 0 msg.bio) p.mem t)
    → (let msg = service_message (some name) client pc in
        IsDelivered h2 msg.mem (call_txn 0 2 0 msg.bio) m2 t2)
    → IsWellFormed p.service
    → p.service.mallocs ≡ some a ∷ rest
    → Returns (on_transact t (bio_init_from_txn t) (new_parcel base) p) (λ x.
      (x.status ≡ 0)
      × Returns
          (on_transact t2
            (bio_init_from_txn t2)
            (new_parcel base2)
            (record (x.process) { mem = m2 }))
          (λ y.
            (y.status ≡ 0)
            × (reply_read y ≡ ref (h.handle_for ptr) ∷ [])
            × (y.process.service ≡ x.process.service)))
unfolding put_items put_item call_txn
on_transact-service_message server client ps pc h h2 name ptr a base base2 rest p t t2 m2 fits fits2
      u long short nonzero lt z l d d2 w memory =
    on_transact-reply_read t t2 name (h.handle_for ptr) a base base2 rest m2 p
      (delivered-IsRegistration server.msg_buffer ptr ps.mem name h p.mem t fits lt short d)
      (delivered-IsRequest client.msg_buffer 2 pc.mem name h2 m2 t2 fits2 short d2)
      (inr d2.same_code) w memory long nonzero z l u
