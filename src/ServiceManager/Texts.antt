-- ===== src/ServiceManager/Texts.antt =====
-- Texts in memory that a terminator ends, as the C library reads them for
-- frameworks/servicemanager/ServiceManager.cpp and frameworks/inputmanager/InotifyDevice.cpp.
use zeus_os.Base.{ℕ, zero, suc, ◌+◌, ◌<◌, ◌≡◌, ◌≢◌, some, List, [], ◌∷◌, arith, length, All}
use zeus_os.Memory.{Mem, load}
use zeus_os.ServiceManager.{strlen}

-- A text without a zero, and the zero that ends it.
pub record IsText (m : Mem) (p : ℕ) (text : List ℕ) : Type 0 where
  pub spelled : load m p (length text) ≡ text
  pub nonzero : All (λ c. c ≢ 0) text
  pub ended : m (p + length text) ≡ 0

IsText-tail :
    (m : Mem) (p c : ℕ) (text : List ℕ) → IsText m p (c ∷ text) → (m p ≡ c) × IsText m (p + 1) text
unfolding load
IsText-tail m p c text t = (
  cc,
  record {
    spelled = ground (arith, t.spelled);
    nonzero = t.nonzero.1;
    ended = ground (arith, t.ended);
  },
)

pub strlen-IsText :
    (n : ℕ) (m : Mem) (p : ℕ) (text : List ℕ)
    → IsText m p text
    → length text < n
    → strlen n m p ≡ some (length text)
unfolding strlen
strlen-IsText zero m p text t l = absurd (omega arith)
strlen-IsText (suc n) m p [] t l = ground (arith, t.ended)
strlen-IsText (suc n) m p (c ∷ text) t l =
    let (first, rest) = IsText-tail m p c text t in
    ground (arith, first, t.nonzero.0, strlen-IsText n m (p + 1) text rest (omega arith))
