-- ===== src/ServiceManager/Examples.antt =====
-- The registry of frameworks/servicemanager/ServiceManager.cpp at concrete values.
use zeus_os.Exchange.Returns.{dead_binder, spawn_looper}
use zeus_os.Exchange.Answers.{answer_bytes}
use zeus_os.Exchange.Keeping.{LoopKeeps}
use zeus_os.ServiceManager.Serving.{manager_handlers, manager_loop-IsManaged}
use zeus_os.Base.{none, ℕ, ◌≡◌, refl, some, List, [], ◌∷◌, arith, ◌==◌, if◌then◌else◌}
use zeus_os.Memory.{Mem, word_bytes}
use zeus_os.Parcel.{Txn}
use zeus_os.Binder.{acquire, request_death, Process, Returns, UnlessFault, Answers, binder_loop}
use zeus_os.ServiceManager.{SvcInfo, Registry, BinderRef, bytes_eq, node_at, death_at, add_service}
use zeus_os.ServiceManager.Nodes.{IsWellFormed}
use zeus_os.ServiceManager.Balance.{IsBalanced, add_service-IsBalanced}
use zeus_os.ServiceManager.Guarantees.{
  handle_of, Registers, add_service_refused, add_service-Registers, death_at-Guarantees,
}
use zeus_os.ServiceManager.Requests.{IsManaged}

-- "hi" at 200.
abbrev name_memory : Mem
name_memory a = if a == 200 then 104 else if a == 201 then 105 else 0

abbrev hi_node : SvcInfo
hi_node = record { address = 1000; handle = 7; allow_isolated = 0; len = 2; name = 104 ∷ 105 ∷ [] }

-- One service is registered, and malloc has room for one more.
abbrev populated : Process Registry
populated = record {
  mem = name_memory;
  sent = acquire 7 ∷ request_death 7 1008 ∷ [];
  threads = 0;
  service = record { svclist = hi_node ∷ []; mallocs = some 2000 ∷ [] };
}

populated-IsWellFormed : IsWellFormed populated.service
populated-IsWellFormed = omega arith

populated-IsBalanced : IsBalanced populated
populated-IsBalanced h z = ground arith

abbrev request : ℕ → ℕ → BinderRef
request len handle = record {
  len = len;
  sender_euid = 0;
  sender_pid = 9;
  allow_isolated = 0;
  handle = handle;
}

add_service-IsBalanced_example :
    Returns (add_service 200 (request 2 9) populated) (λ x. IsBalanced x.1)
add_service-IsBalanced_example =
    add_service-IsBalanced 200 (request 2 9) populated (omega arith) populated-IsWellFormed
      populated-IsBalanced

add_service-Registers_example :
    Returns (add_service 200 (request 2 9) populated) (Registers 200 (request 2 9) populated)
add_service-Registers_example =
    add_service-Registers 200 2000 [] (request 2 9) populated populated-IsWellFormed (omega arith)
      (omega arith) (omega arith) refl

add_service_refused_example : Returns (add_service 200 (request 2 0) populated) (λ x.
    (x.0 ≡ 0 → ⊥) → (x.1.sent ≡ populated.sent) × (x.1.service.svclist ≡ populated.service.svclist))
add_service_refused_example =
    add_service_refused 200 (request 2 0) populated (omega arith) populated-IsWellFormed

death_at-Guarantees_example : Returns (death_at 1008 populated) (λ q.
    IsWellFormed q.service
    × IsBalanced q
    × ((j : List ℕ)
        → handle_of j q ≡ (if bytes_eq hi_node.name j then 0 else handle_of j populated)))
unfolding node_at
death_at-Guarantees_example =
    death_at-Guarantees hi_node populated refl populated-IsWellFormed populated-IsBalanced

abbrev get_request : Txn
get_request = record {
  target = 0;
  txn_cookie = 0;
  code = 2;
  txn_flags = 0;
  sender_pid = 9;
  sender_euid = 0;
  data_size = 12;
  offsets_size = 0;
  buffer = 192;
  offsets = 0;
}

-- The driver tells of the death of the service, and asks for a thread.
abbrev obituary : Answers
obituary = some (answer_bytes (dead_binder 1008 ∷ spawn_looper ∷ [])) ∷ none ∷ []

manager_loop-IsManaged_example :
    UnlessFault
      (binder_loop (manager_handlers 4096 8192) 600 obituary populated)
      (LoopKeeps IsManaged)
unfolding word_bytes
manager_loop-IsManaged_example =
    manager_loop-IsManaged 4096 8192 600 obituary populated (omega arith) (
      λ a. ground arith,
      record { well_formed = populated-IsWellFormed; balanced = populated-IsBalanced },
    )
