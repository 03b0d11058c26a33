-- ===== src/TestService.antt =====
-- The test service, frameworks/testservice/TestService.cpp: BnTestService with what it prints, and
-- the proxy BpTestService.
pub mod Greetings
pub mod Examples
use zeus_os.Base.{
  ℕ, zero, suc, Bool, not, Option, none, some, List, [], ◌∷◌, ◌++◌, ◌==◌, if◌then◌else◌,
}
use zeus_os.Memory.{load}
use zeus_os.Parcel.{BinderIo, Txn, get_uint32, get_string8, put_uint32}
use zeus_os.Binder.{Outcome, done, fault, ◌>>=◌, Process, Answer}
use zeus_os.ServiceManager.{strlen, map_size}
use zeus_os.Proxies.{Client, call_with, service_message, take_status}

-- The lines that were printed.
pub record Greeter : Type 0 where
  pub printed : List (List ℕ)

-- -1
abbrev pub minus_one : ℕ
minus_one = 0xffffffff

-- HELLO_SVR_CMD_SAYHELLO_TO
abbrev pub say_hello_to : ℕ
say_hello_to = 1

-- "hello %s\n"
unfoldable pub hello_line : List ℕ → List ℕ
hello_line text = 104 ∷ 101 ∷ 108 ∷ 108 ∷ 111 ∷ 32 ∷ text ++ 10 ∷ []

-- The loop, with as many rounds left.
unfoldable pub print_hellos : ℕ → List ℕ → List (List ℕ) → List (List ℕ)
print_hellos zero text out = out
print_hellos (suc i) text out = print_hellos i text (out ++ hello_line text ∷ [])

-- printf with a NULL text, or one without an end, is undefined.
unfoldable pub hello : Option ℕ → Process Greeter → Outcome (ℕ × Process Greeter)
hello none p = fault
hello (some str) p = elim (strlen map_size p.mem str) [
  | none ↦ fault
  | some len ↦ done (
    0,
    record p {
      service = record { printed = print_hellos 5 (load p.mem str len) p.service.printed };
    },
  )
]

-- reply->putUint32, and the return of onTransact.
abbrev answer : ℕ → ℕ → BinderIo → Process Greeter → Outcome (Answer Greeter)
answer val status r p =
    let q = put_uint32 val (record { mem = p.mem; bio = r }) in
    done (record { status = status; reply_bio = q.bio; process = record p { mem = q.mem } })

-- BnTestService::onTransact
unfoldable pub on_transact : Txn → BinderIo → BinderIo → Process Greeter → Outcome (Answer Greeter)
on_transact txn msg r p =
    let (strict_policy, msg') = get_uint32 p.mem msg in
    if not (strict_policy == 0)
    then answer minus_one minus_one r p
    else if txn.code == say_hello_to
    then (let (str, len, msg'') = get_string8 p.mem msg' in hello str p >>= λ x. answer x.0 0 r x.1)
    else done (record { status = minus_one; reply_bio = r; process = p })

-- BpTestService::hello, which prints the text too.
unfoldable pub bp_hello :
    {S : Type 0} → Client S → ℕ → Option (List ℕ) → Process S → Outcome (ℕ × Process S)
bp_hello k target none p = fault
bp_hello k target (some str) p =
    call_with k (service_message (some str) k p) target say_hello_to 0 p >>= λ c.
    done (take_status c)
