-- ===== src/TestService/Greetings.antt =====
-- A greeting from the proxy to the service of frameworks/testservice/TestService.cpp and back.
use zeus_os.Base.{
  ℕ, zero, suc, ◌+◌, ◌*◌, ◌/◌, ◌≤◌, ◌<◌, ◌≡◌, ◌≢◌, refl, sym, ◌∙◌, some, List, [], ◌∷◌, ◌++◌, arith,
  length, All,
}
use mathlib.Core.List.{append-nil, append_assoc}
use zeus_os.Memory.{u32_mod}
use zeus_os.Parcel.{
  BinderIo, Txn, new_parcel, bio_init_from_txn, get_uint32, get_string8, put_uint32,
}
use zeus_os.Binder.{done, Process, Answer, Returns, reply_txn, call_txn}
use zeus_os.ServiceManager.{map_size}
use zeus_os.ServiceManager.Texts.{IsText, strlen-IsText}
use zeus_os.Marshal.Items.{Item, uint32, put_items, put_item}
use zeus_os.Marshal.RoundTrip.{get_items, word}
use zeus_os.Marshal.Delivery.{get_items-put_items}
use zeus_os.Marshal.Requests.{
  IsNamed, IsCopy, policy_read, name_read, request-IsText, copy-IsNamed, put_items-IsNamed,
}
use zeus_os.Proxies.{Client, service_message}
use zeus_os.TestService.{Greeter, say_hello_to, hello_line, print_hellos, hello, on_transact}

-- A list of equal lines.
abbrev pub copies : ℕ → List ℕ → List (List ℕ)
copies zero line = []
copies (suc n) line = line ∷ copies n line

print_hellos-copies :
    (n : ℕ) (text : List ℕ) (out : List (List ℕ))
    → print_hellos n text out ≡ out ++ copies n (hello_line text)
unfolding print_hellos
print_hellos-copies zero text out = sym (append-nil out)
print_hellos-copies (suc n) text out =
    print_hellos-copies n text (out ++ hello_line text ∷ [])
    ∙ append_assoc out (hello_line text ∷ []) _

-- What a client reads from the reply, where the driver delivers its transaction unchanged.
abbrev pub status_read : Answer Greeter → List Item
status_read a = get_items (word ∷ []) a.process.mem (bio_init_from_txn (reply_txn 0 0 a.reply_bio))

abbrev pub IsGreeted : List ℕ → Process Greeter → Answer Greeter → Type 0
IsGreeted name p a =
    (a.status ≡ 0)
    × (a.process.service.printed ≡ p.service.printed ++ copies 5 (hello_line name))
    × (a.process.sent ≡ p.sent)
    × (status_read a ≡ uint32 0 ∷ [])

greet :
    (t : Txn) (msg r : BinderIo) (p : Process Greeter) (at : ℕ) (name : List ℕ)
    → (get_uint32 p.mem msg).0 ≡ 0
    → t.code ≡ say_hello_to
    → (get_string8 p.mem (get_uint32 p.mem msg).1).0 ≡ some at
    → IsText p.mem at name
    → length name < map_size
    → (let q = put_uint32 0 (record { mem = p.mem; bio = r }) in
        on_transact t msg r p
        ≡ done (record {
          status = 0;
          reply_bio = q.bio;
          process = record p {
            mem = q.mem;
            service = record { printed = p.service.printed ++ copies 5 (hello_line name) };
          };
        }))
unfolding on_transact hello
greet t msg r p at name policy code text spelled short =
    rw
      (
        on_transact,
        policy,
        code,
        text,
        hello,
        strlen-IsText map_size p.mem at name spelled short,
        spelled.spelled,
        print_hellos-copies 5 name p.service.printed,
      )
      refl

-- The message of BpTestService::hello, copied by the driver into the memory of the service, makes
-- it print "hello" with the text five times, and nothing else, and the proxy reads 0 from the reply.
-- The text has no zero and fits a parcel with its length and the policy word, and both parcels lie
-- below 2 ^ 32.
pub on_transact-IsGreeted :
    {S : Type 0} (k : Client S) (client : Process S) (target base : ℕ) (name : List ℕ) (t : Txn)
    (p : Process Greeter)
    → k.msg_buffer + 1024 < u32_mod
    → 8 + (length name + 4) / 4 * 4 ≤ 1008
    → All (λ c. c ≢ 0) name
    → (let msg = service_message (some name) k client in
        IsCopy msg.mem (call_txn target say_hello_to 0 msg.bio) p.mem t)
    → t.code ≡ say_hello_to
    → base + 1024 < u32_mod
    → Returns (on_transact t (bio_init_from_txn t) (new_parcel base) p) (IsGreeted name p)
unfolding put_items put_item reply_txn call_txn bio_init_from_txn
on_transact-IsGreeted k client target base name t p u room nonzero copy code v =
    let sent = put_items-IsNamed k.msg_buffer target say_hello_to 0 client.mem name u room in
    let msg = service_message (some name) k client in
    let q : IsNamed p.mem t name =
      copy-IsNamed msg.mem (call_txn target say_hello_to 0 msg.bio) p.mem t name sent copy in
    rw
      (greet t (bio_init_from_txn t) (new_parcel base) p (t.buffer + 4 + 4) name
        (policy_read p.mem t name q).0 code (name_read p.mem t name q).0
        (request-IsText p.mem t name q nonzero) (omega arith))
      (
        refl,
        refl,
        refl,
        get_items-put_items base 0 0 0 p.mem (uint32 0 ∷ []) v (omega arith, tt) (omega arith)
            (omega arith),
      )
