-- ===== src/Exchange/Answers.antt =====
-- The answers of the driver as messages: the bytes of a read buffer that binderCall and the loops
-- of system/binder/Binder.cpp hand to binderParse.
use zeus_os.Base.{
  ℕ, suc, ◌+◌, ◌*◌, ◌≤◌, ◌<◌, ◌≡◌, refl, ap, ◌∙◌, Bool, List, [], ◌∷◌, ◌++◌, arith, length,
  length-append, All,
}
use zeus_os.Memory.{
  Mem, u32_mod, load_word-agree, load_word-store, store, word_bytes, length-word_bytes,
  store-append,
}
use zeus_os.Parcel.{BinderIo}
use zeus_os.Binder.{Process, Handlers, Parsing, looping, parse_answer}
use zeus_os.Exchange.Returns.{
  Return, return_words, return_size, total_size, WordsAt, Laid, follow, Spares,
}
use zeus_os.Exchange.Parsing.{binder_parse-follow, return_size_pos}

-- The bytes of words.
abbrev pub words_bytes : List ℕ → List ℕ
words_bytes [] = []
words_bytes (w ∷ ws) = word_bytes w ++ words_bytes ws

-- The bytes of messages, as the driver puts them behind each other.
abbrev pub answer_bytes : List Return → List ℕ
answer_bytes [] = []
answer_bytes (r ∷ rs) = words_bytes (return_words r) ++ answer_bytes rs

-- The words of messages fit 32 bits.
abbrev pub AreWords : List Return → Type 0
AreWords rs = All (λ r. All (λ w. w < u32_mod) (return_words r)) rs

length-words_bytes : (ws : List ℕ) → length (words_bytes ws) ≡ 4 * length ws
length-words_bytes [] = refl
length-words_bytes (w ∷ ws) = omega (
  arith,
  length-append (word_bytes w) (words_bytes ws),
  length-word_bytes w,
  length-words_bytes ws,
)

pub length-answer_bytes : (rs : List Return) → length (answer_bytes rs) ≡ total_size rs
length-answer_bytes [] = refl
length-answer_bytes (r ∷ rs) = omega (
  arith,
  length-append (words_bytes (return_words r)) (answer_bytes rs),
  length-words_bytes (return_words r),
  length-answer_bytes rs,
)

WordsAt-stored :
    (m m' : Mem) (p : ℕ) (ws rest : List ℕ)
    → All (λ w. w < u32_mod) ws
    → ((a : ℕ) → p ≤ a → m' a ≡ store m p (words_bytes ws ++ rest) a)
    → WordsAt m' p ws
unfolding word_bytes
WordsAt-stored m m' p [] rest b e = tt
WordsAt-stored m m' p (w ∷ ws) rest b e = (
  load_word-agree (store m p (word_bytes w ++ (words_bytes ws ++ rest))) m' p (λ a l u. e a l)
      ∙ load_word-store m p w (words_bytes ws ++ rest) b.0,
  WordsAt-stored m m' (p + 4) ws rest b.1
      (λ a l. e a (omega arith) ∙ store-append m p (word_bytes w) (words_bytes ws ++ rest) a l),
)

Laid-stored :
    (m m' : Mem) (p : ℕ) (rs : List Return)
    → AreWords rs
    → ((a : ℕ) → p ≤ a → m' a ≡ store m p (answer_bytes rs) a)
    → Laid m' p rs
Laid-stored m m' p [] b e = tt
Laid-stored m m' p (r ∷ rs) b e = (
  WordsAt-stored m m' p (return_words r) (answer_bytes rs) b.0 e,
  Laid-stored m m' (p + return_size r) rs b.1 (λ a l.
      e a (omega arith)
      ∙ store-append m p (words_bytes (return_words r)) (answer_bytes rs) a
          (omega (arith, length-words_bytes (return_words r)))
      ∙ ap (λ n. store m (p + n) (answer_bytes rs) a) (length-words_bytes (return_words r))),
)

length-total : (rs : List Return) → length rs ≤ total_size rs
length-total [] = omega arith
length-total (r ∷ rs) = omega (arith, return_size_pos r, length-total rs)

module _ {S : Type 0} where
  -- The locals of binderParse at its start.
  abbrev pub begin : ℕ → List Return → Bool → BinderIo → Process S → Parsing S
  begin readbuf rs waiting answer p = record {
    ptr = readbuf;
    verdict = looping;
    waiting = waiting;
    answer = answer;
    process = record p { mem = store (p.mem) readbuf (answer_bytes rs) };
  }

  -- binderParse, on a read buffer that the driver filled with messages, does what the messages mean
  -- one after the other: it finds every message, reads it as it was written, and has no wait and no
  -- fault of its own. The words of the messages fit 32 bits, and the handlers do not write to the
  -- read buffer.
  pub parse_answer-follow :
      (h : Handlers S) (readbuf : ℕ) (rs : List Return) (waiting : Bool) (answer : BinderIo)
      (p : Process S)
      → AreWords rs
      → Spares readbuf (readbuf + length (answer_bytes rs)) h
      → parse_answer h readbuf (answer_bytes rs) waiting answer p
        ≡ follow h rs (begin readbuf rs waiting answer p)
  unfolding parse_answer
  parse_answer-follow h readbuf rs waiting answer p b sp =
      binder_parse-follow h readbuf (readbuf + length (answer_bytes rs)) sp
        (suc (length (answer_bytes rs))) rs (begin readbuf rs waiting answer p)
        (omega (arith, length-answer_bytes rs, length-total rs)) (omega arith)
        (omega (arith, length-answer_bytes rs)) (Laid-stored p.mem _ readbuf rs b (λ a l. refl))
