-- ===== src/Clauses/Buffer/Alone/Steps.antt =====
-- The accesses of a call, one by one.
use dpainless.Prelude.{
  ℕ, suc, ◌≡◌, refl, ap, ◌∙◌, List, [], Option, none, some, arith, ◌==◌, true, false, Bool,
}
use dpainless.Clauses.Exchange.{ClauseExchange}
use dpainless.Clauses.Buffer.Queue.{ClauseBuffer, element, produce, consume, asking, looping}
use dpainless.Clauses.Buffer.Queue.{
  Producer, not_adding, looping, has_tail, has_next, checked, linked, swung, Consumer, not_getting,
  has_head, saw_tail, saw_next, sure, has_clause, popped, deleted, returned_false, returned_true,
}
use dpainless.Clauses.Buffer.Alone.{produce_until, consume_until}

abbrev is_getting : Consumer → Bool
is_getting not_getting = false
is_getting returned_false = false
is_getting (returned_true c) = false
is_getting _ = true

abbrev is_adding : Producer → Bool
is_adding not_adding = false
is_adding _ = true

abbrev pub gets :
    ℕ
    → Option (Consumer × ClauseBuffer × List (Option ClauseExchange))
    → Option (Option (Option ClauseExchange) × ClauseBuffer)
gets fuel o = elim o [ none ↦ none | some (q, b, cs) ↦ consume_until fuel q b ]

abbrev pub adds : ℕ → Option (Producer × ClauseBuffer × List ClauseExchange) → Option ClauseBuffer
adds fuel o = elim o [ none ↦ none | some (p, b, cs) ↦ produce_until fuel p b ]

pub consume_until-step :
    (fuel : ℕ) (q : Consumer) (b : ClauseBuffer)
    (r : Consumer × ClauseBuffer × List (Option ClauseExchange))
    → is_getting q ≡ true
    → consume q b ≡ some r
    → consume_until (suc fuel) q b ≡ consume_until fuel r.0 r.1
unfolding consume_until
consume_until-step fuel not_getting b r g e = absurd (ground arith)
consume_until-step fuel returned_false b r g e = absurd (ground arith)
consume_until-step fuel (returned_true c) b r g e = absurd (ground arith)
consume_until-step fuel asking b r g e = ap (gets fuel) e
consume_until-step fuel (has_head h) b r g e = ap (gets fuel) e
consume_until-step fuel (saw_tail h t) b r g e = ap (gets fuel) e
consume_until-step fuel (saw_next h t n) b r g e = ap (gets fuel) e
consume_until-step fuel (sure h t n) b r g e = ap (gets fuel) e
consume_until-step fuel (has_clause h n c) b r g e = ap (gets fuel) e
consume_until-step fuel (popped h c) b r g e = ap (gets fuel) e
consume_until-step fuel (deleted c) b r g e = ap (gets fuel) e

pub produce_until-step :
    (fuel : ℕ) (p : Producer) (b : ClauseBuffer) (r : Producer × ClauseBuffer × List ClauseExchange)
    → is_adding p ≡ true
    → produce p b ≡ some r
    → produce_until (suc fuel) p b ≡ produce_until fuel r.0 r.1
unfolding produce_until
produce_until-step fuel not_adding b r g e = absurd (ground arith)
produce_until-step fuel (looping a c) b r g e = ap (adds fuel) e
produce_until-step fuel (has_tail a c t) b r g e = ap (adds fuel) e
produce_until-step fuel (has_next a c t n) b r g e = ap (adds fuel) e
produce_until-step fuel (checked a c t n) b r g e = ap (adds fuel) e
produce_until-step fuel (linked a c t) b r g e = ap (adds fuel) e
produce_until-step fuel swung b r g e = ap (adds fuel) e

pub returns_false :
    (fuel : ℕ) (b : ClauseBuffer) → consume_until (suc fuel) returned_false b ≡ some (none, b)
unfolding consume_until
returns_false fuel b = refl

pub returns_added : (fuel : ℕ) (b : ClauseBuffer) → produce_until (suc fuel) not_adding b ≡ some b
unfolding produce_until
returns_added fuel b = refl

pub returns_true :
    (fuel : ℕ) (c : Option ClauseExchange) (b : ClauseBuffer)
    → consume_until (suc fuel) (returned_true c) b ≡ some (some c, b)
unfolding consume_until
returns_true fuel c b = refl

pub see_tail :
    (b : ClauseBuffer) (k : Option ClauseExchange) (n : Option ℕ) (fuel : ℕ)
    → b.elements b.head ≡ some (element k n)
    → consume_until (suc (suc (suc (suc fuel)))) asking b
      ≡ consume_until fuel (sure b.head b.tail n) b
unfolding consume
see_tail b k n fuel e =
    consume_until-step (suc (suc (suc fuel))) asking b (has_head b.head, b, []) refl refl
    ∙ consume_until-step (suc (suc fuel)) (has_head b.head) b (saw_tail b.head b.tail, b, []) refl
        refl
    ∙ consume_until-step (suc fuel) (saw_tail b.head b.tail) b (saw_next b.head b.tail n, b, [])
        refl (rw (e, consume) refl)
    ∙ consume_until-step fuel (saw_next b.head b.tail n) b (sure b.head b.tail n, b, []) refl
        (let self : (b.head == b.head) ≡ true = ground arith in rw self refl)
