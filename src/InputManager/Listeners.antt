-- ===== src/InputManager/Listeners.antt =====
-- The list mListenerDescList of frameworks/inputmanager/InputManager.cpp, and the references that
-- the manager holds on the handles of its listeners.
use zeus_os.Base.{
  ℕ, ◌+◌, ◌≡◌, ◌≢◌, refl, sym, inl, inr, Bool, true, false, Bool-cases, some, List, [], ◌∷◌, ◌++◌,
  arith, ◌==◌, if◌then◌else◌, ==_iff, All,
}
use zeus_os.Binder.{
  Process, acquire, release, request_death, acquired, released, acquired-append, released-append,
  binder_acquire, binder_release, binder_link_to_death,
}
use zeus_os.InputManager.{ListenerDesc, Listening, add_listener, remove, drop_listener, with_death}

abbrev pub Fresh : ℕ → List ListenerDesc → Type 0
Fresh a [] = Unit
Fresh a (d ∷ ds) = (d.address ≢ a) × Fresh a ds

abbrev pub Distinct : List ListenerDesc → Type 0
Distinct [] = Unit
Distinct (d ∷ ds) = Fresh d.address ds × Distinct ds

abbrev pub AreHandled : List ListenerDesc → Type 0
AreHandled ds = All (λ d. d.handle ≢ 0) ds

-- The listeners with a given handle.
abbrev pub holding : ℕ → List ListenerDesc → ℕ
holding h [] = 0
holding h (d ∷ ds) = (if d.handle == h then 1 else 0) + holding h ds

-- No description stands in the list twice, every listener has a handle, and the references held on
-- every handle are as many as the listeners that have it.
pub record IsTracked (p : Process Listening) : Type 0 where
  pub distinct : Distinct p.service.listeners
  pub handled : AreHandled p.service.listeners
  pub balanced : (h : ℕ) → acquired h p.sent ≡ released h p.sent + holding h p.service.listeners

pub remove-Fresh_same : (a : ℕ) (ds : List ListenerDesc) → Fresh a ds → remove a ds ≡ ds
unfolding remove
remove-Fresh_same a [] f = refl
remove-Fresh_same a (d ∷ ds) f = ground (arith, remove-Fresh_same a ds f.1)

remove-Fresh : (a b : ℕ) (ds : List ListenerDesc) → Fresh b ds → Fresh b (remove a ds)
unfolding remove
remove-Fresh a b [] f = tt
remove-Fresh a b (d ∷ ds) f = ground (arith, remove-Fresh a b ds f.1)

remove-Distinct : (a : ℕ) (ds : List ListenerDesc) → Distinct ds → Distinct (remove a ds)
unfolding remove
remove-Distinct a [] f = tt
remove-Distinct a (d ∷ ds) f =
    ground (arith, remove-Distinct a ds f.1, remove-Fresh a d.address ds f.0)

remove-AreHandled : (a : ℕ) (ds : List ListenerDesc) → AreHandled ds → AreHandled (remove a ds)
unfolding remove
remove-AreHandled a [] f = tt
remove-AreHandled a (d ∷ ds) f = ground (arith, remove-AreHandled a ds f.1)

pub with_death-Fresh :
    (a b : ℕ) (ds : List ListenerDesc) (d : ListenerDesc)
    → Fresh b ds
    → with_death a ds ≡ some d
    → d.address ≢ b
unfolding with_death
with_death-Fresh a b [] d f e = cc
with_death-Fresh a b (x ∷ ds) d f e = ground (arith, with_death-Fresh a b ds d f.1)

-- The listener that is removed is the one that died.
holding-remove :
    (h a : ℕ) (ds : List ListenerDesc) (d : ListenerDesc)
    → Distinct ds
    → with_death a ds ≡ some d
    → holding h (remove d.address ds) + (if d.handle == h then 1 else 0) ≡ holding h ds
unfolding remove with_death
holding-remove h a [] d f e = cc
holding-remove h a (x ∷ ds) d f e = ground (
  arith,
  holding-remove h a ds d f.1,
  with_death-Fresh a x.address ds d f.0,
  remove-Fresh_same x.address ds f.0,
)

Fresh-append :
    (a : ℕ) (ds : List ListenerDesc) (d : ListenerDesc)
    → Fresh a ds
    → d.address ≢ a
    → Fresh a (ds ++ d ∷ [])
Fresh-append a [] d f n = (n, tt)
Fresh-append a (x ∷ ds) d f n = (f.0, Fresh-append a ds d f.1 n)

Distinct-append :
    (ds : List ListenerDesc) (d : ListenerDesc)
    → Distinct ds
    → Fresh d.address ds
    → Distinct (ds ++ d ∷ [])
Distinct-append [] d f n = (tt, tt)
Distinct-append (x ∷ ds) d f n =
    (Fresh-append x.address ds d f.0 (λ e. n.0 (sym e)), Distinct-append ds d f.1 n.1)

AreHandled-append :
    (ds : List ListenerDesc) (d : ListenerDesc)
    → AreHandled ds
    → d.handle ≢ 0
    → AreHandled (ds ++ d ∷ [])
AreHandled-append [] d f n = (n, tt)
AreHandled-append (x ∷ ds) d f n = (f.0, AreHandled-append ds d f.1 n)

holding-append :
    (h : ℕ) (ds : List ListenerDesc) (d : ListenerDesc)
    → holding h (ds ++ d ∷ []) ≡ holding h ds + (if d.handle == h then 1 else 0)
holding-append h [] d = omega arith
holding-append h (x ∷ ds) d = omega (arith, holding-append h ds d)

pub test_not : {b : Bool} → b ≡ false → b ≡ true → ⊥
test_not f t = cc

pub add_listener-IsTracked :
    (d : ListenerDesc) (p : Process Listening)
    → IsTracked p
    → Fresh d.address p.service.listeners
    → IsTracked (add_listener d p).1
unfolding add_listener binder_acquire binder_link_to_death
add_listener-IsTracked d p s f = elim (Bool-cases (d.handle == 0)) [
  | inl z ↦ rw (add_listener, z) s
  | inr n ↦
      rw (add_listener, n)
        (record {
          distinct = Distinct-append p.service.listeners d s.distinct f;
          handled =
              AreHandled-append p.service.listeners d s.handled
                (λ e. test_not n ((==_iff d.handle 0).1 e));
          balanced = λ h. omega (
            arith,
            s.balanced h,
            holding-append h p.service.listeners d,
            acquired-append h p.sent (acquire d.handle ∷ []),
            released-append h p.sent (acquire d.handle ∷ []),
            acquired-append h (p.sent ++ acquire d.handle ∷ [])
                (request_death d.handle d.death ∷ []),
            released-append h (p.sent ++ acquire d.handle ∷ [])
                (request_death d.handle d.death ∷ []),
          );
        })
]

pub with_death-handled :
    (a : ℕ) (ds : List ListenerDesc) (d : ListenerDesc)
    → AreHandled ds
    → with_death a ds ≡ some d
    → d.handle ≢ 0
unfolding with_death
with_death-handled a [] d f e = cc
with_death-handled a (x ∷ ds) d f e = ground (arith, with_death-handled a ds d f.1)

pub drop_listener-IsTracked :
    (a : ℕ) (d : ListenerDesc) (p : Process Listening)
    → with_death a p.service.listeners ≡ some d
    → IsTracked p
    → IsTracked (drop_listener d p)
unfolding drop_listener binder_release
drop_listener-IsTracked a d p e s = elim (Bool-cases (d.handle == 0)) [
  | inl z ↦ rw (drop_listener, z) s
  | inr n ↦
      rw (drop_listener, n)
        (record {
          distinct = remove-Distinct d.address p.service.listeners s.distinct;
          handled = remove-AreHandled d.address p.service.listeners s.handled;
          balanced = λ h. omega (
            arith,
            s.balanced h,
            holding-remove h a p.service.listeners d s.distinct e,
            acquired-append h p.sent (release d.handle ∷ []),
            released-append h p.sent (release d.handle ∷ []),
          );
        })
]
