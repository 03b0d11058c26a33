-- ===== src/Exchange/Parsing.antt =====
-- The loop of binderParse in system/binder/Binder.cpp on a read buffer that holds whole messages.
use zeus_os.Base.{
  ℕ, zero, suc, ◌+◌, ◌*◌, ◌≤◌, ◌<◌, ◌≡◌, refl, ◌∙◌, subst, List, [], ◌∷◌, arith, lt→ltb, ltb-false,
  length,
}
use zeus_os.Memory.{Mem, load_word-agree}
use zeus_os.Binder.{
  Outcome, done, fault, blocked, ◌>>=◌, Handlers, Parsing, Next, go, transact, binder_parse,
}
use zeus_os.Exchange.Returns.{
  Return, noop, complete, spawn_looper, failed_reply, dead_reply, increfs, acquire_ref, release_ref,
  decrefs, transaction, reply, dead_binder, return_words, return_size, total_size, WordsAt, Laid,
  IfDone, SameBytes, follow_one, follow, Spares, parse_step-return,
}

pub IfDone-bind {ℓ κ} :
    {A : Type ℓ} {B : Type κ} (o : Outcome A) (f : A → Outcome B) (Q : A → Type 0) (R : B → Type 0)
    → IfDone o Q
    → ((a : A) → Q a → IfDone (f a) R)
    → IfDone (o >>= f) R
IfDone-bind (done a) f Q R h k = k a h
IfDone-bind fault f Q R h k = tt
IfDone-bind blocked f Q R h k = tt

WordsAt-agree :
    (m m' : Mem) (p : ℕ) (ws : List ℕ)
    → ((a : ℕ) → p ≤ a → a < p + 4 * length ws → m' a ≡ m a)
    → WordsAt m p ws
    → WordsAt m' p ws
WordsAt-agree m m' p [] h w = tt
WordsAt-agree m m' p (x ∷ ws) h w = (
  load_word-agree m m' p (λ a l u. h a l (omega arith)) ∙ w.0,
  WordsAt-agree m m' (p + 4) ws (λ a l u. h a (omega arith) (omega arith)) w.1,
)

Laid-agree :
    (m m' : Mem) (p : ℕ) (rs : List Return)
    → ((a : ℕ) → p ≤ a → a < p + total_size rs → m' a ≡ m a)
    → Laid m p rs
    → Laid m' p rs
Laid-agree m m' p [] h w = tt
Laid-agree m m' p (r ∷ rs) h w = (
  WordsAt-agree m m' p (return_words r) (λ a l u. h a l (omega arith)) w.0,
  Laid-agree m m' (p + return_size r) rs (λ a l u. h a (omega arith) (omega arith)) w.1,
)

pub return_size_pos : (r : Return) → 4 ≤ return_size r
return_size_pos noop = omega arith
return_size_pos complete = omega arith
return_size_pos spawn_looper = omega arith
return_size_pos failed_reply = omega arith
return_size_pos dead_reply = omega arith
return_size_pos (increfs p c) = omega arith
return_size_pos (acquire_ref p c) = omega arith
return_size_pos (release_ref p c) = omega arith
return_size_pos (decrefs p c) = omega arith
return_size_pos (transaction t) = omega arith
return_size_pos (reply t) = omega arith
return_size_pos (dead_binder d) = omega arith

module _ {S : Type 0} (h : Handlers S) (lo hi : ℕ) (sp : Spares lo hi h) where
  -- After a message the next one is read, from bytes that are still those of the driver.
  abbrev Advances : Return → Parsing S → Parsing S → Type 0
  Advances r s s' = (s.ptr + return_size r ≡ s'.ptr) × SameBytes lo hi s.process s'.process

  follow_one-Advances : (r : Return) (s : Parsing S) → IfDone (follow_one h r s) (Advances r s)
  follow_one-Advances noop s = (refl, λ a l u. refl)
  follow_one-Advances complete s = (refl, λ a l u. refl)
  follow_one-Advances spawn_looper s = (refl, λ a l u. refl)
  follow_one-Advances failed_reply s = (refl, λ a l u. refl)
  follow_one-Advances dead_reply s = (refl, λ a l u. refl)
  follow_one-Advances (increfs p c) s = (refl, λ a l u. refl)
  follow_one-Advances (acquire_ref p c) s = (refl, λ a l u. refl)
  follow_one-Advances (release_ref p c) s = (refl, λ a l u. refl)
  follow_one-Advances (decrefs p c) s = (refl, λ a l u. refl)
  follow_one-Advances (reply t) s = (refl, λ a l u. refl)
  follow_one-Advances (transaction t) s =
      IfDone-bind (transact h t s.process) _ _ _ (sp.transacts t s.process) (λ p same. (refl, same))
  follow_one-Advances (dead_binder d) s =
      IfDone-bind (h.death d s.process) _ _ _ (sp.deaths d s.process) (λ p same. (refl, same))

  bind_rounds :
      (o : Outcome (Parsing S)) (Q : Parsing S → Type 0) (k : Next S → Outcome (Parsing S))
      (k' : Parsing S → Outcome (Parsing S))
      → IfDone o Q
      → ((s : Parsing S) → Q s → k (go s) ≡ k' s)
      → ((o >>= λ s. done (go s)) >>= k) ≡ (o >>= k')
  bind_rounds (done s) Q k k' q e = e s q
  bind_rounds fault Q k k' q e = refl
  bind_rounds blocked Q k k' q e = refl

  pub binder_parse-follow :
      (f : ℕ) (rs : List Return) (s : Parsing S)
      → length rs < f
      → lo ≤ s.ptr
      → s.ptr + total_size rs ≡ hi
      → Laid s.process.mem s.ptr rs
      → binder_parse f h hi s ≡ follow h rs s
  unfolding binder_parse follow
  binder_parse-follow zero rs s n l e w = absurd (omega arith)
  binder_parse-follow (suc f) [] s n l e w = rw (binder_parse, ltb-false s.ptr hi (omega arith))
  binder_parse-follow (suc f) (r ∷ rs) s n l e w =
      rw
        (
          binder_parse,
          lt→ltb s.ptr hi (omega (arith, return_size_pos r)),
          parse_step-return h hi r s w.0 (omega arith),
        )
        (bind_rounds (follow_one h r s) (Advances r s) _ (follow h rs) (follow_one-Advances r s)
          (λ s' adv.
            binder_parse-follow f rs s' (omega arith) (omega (arith, adv.0)) (omega (arith, adv.0))
              (subst (λ q. Laid s'.process.mem q rs) adv.0
                (Laid-agree s.process.mem s'.process.mem (s.ptr + return_size r) rs
                  (λ a g u. adv.1 a (omega arith) (omega arith)) w.1))))
