-- ===== src/Gateway/Messages/Laws.antt =====
-- Which FlowRun stands under a name after any deliveries.
use kubezap_operator.Base.{
  String, ◌≡◌, refl, ap, subst, ◌↔◌, ◌∙◌, Bool, true, false, ◌&&◌, Option, none, some, List, [],
  ◌∷◌, ◌==◌, arith, if◌then◌else◌, String-cases, inl, inr,
}
use kubezap_operator.Base.Assoc.{Assoc, lookup, lookup-insert}
use kubezap_operator.Gateway.Messages.{
  MessageRun, acknowledged, unanswered, settle, settle_kafka, settle_nats, create, put_new, deliver,
}

-- The one that is there already, else the new one.
abbrev pub or_new : Option MessageRun → Option MessageRun → Option MessageRun
or_new (some old) new = some old
or_new none new = new

-- Of a name: the FlowRun that is there already, else that of the first delivery of this name at which
-- the API server was available.
abbrev pub first_of : String → List (Bool × MessageRun) → Option MessageRun → Option MessageRun
first_of name [] o = o
first_of name ((available, run) ∷ rest) o =
    first_of name rest (or_new o (if available && run.name == name then some run else none))

or_new-none : (o : Option MessageRun) → o ≡ or_new o none
or_new-none none = refl
or_new-none (some old) = refl

lookup-put_new :
    (run : MessageRun) (store : Assoc MessageRun) (name : String) (o : Option MessageRun)
    → lookup run.name store ≡ o
    → lookup name (put_new run store o).1
      ≡ or_new (lookup name store) (if run.name == name then some run else none)
unfolding put_new
lookup-put_new run store name none h = elim (String-cases run.name name) [
  | inl (p, e) ↦
      lookup-insert name run.name run store
      ∙ rw e (rw (subst (λ n. lookup n store ≡ none) p h) refl)
  | inr (_, e) ↦ lookup-insert name run.name run store ∙ rw e (or_new-none (lookup name store))
]
lookup-put_new run store name (some old) h = elim (String-cases run.name name) [
  | inl (p, e) ↦ rw (subst (λ n. lookup n store ≡ some old) p h) refl
  | inr (_, e) ↦ rw e (or_new-none (lookup name store))
]

lookup-create :
    (available : Bool) (run : MessageRun) (store : Assoc MessageRun) (name : String)
    → lookup name (create available run store).1
      ≡ or_new (lookup name store) (if available && run.name == name then some run else none)
unfolding create
lookup-create true run store name = lookup-put_new run store name (lookup run.name store) refl
lookup-create false run store name = or_new-none (lookup name store)

lookup-deliver :
    (name : String) (deliveries : List (Bool × MessageRun)) (store : Assoc MessageRun)
    → lookup name (deliver deliveries store) ≡ first_of name deliveries (lookup name store)
unfolding deliver
lookup-deliver name [] store = refl
lookup-deliver name ((available, run) ∷ rest) store =
    lookup-deliver name rest (create available run store).1
    ∙ ap (first_of name rest) (lookup-create available run store name)

settle-put_new :
    (run : MessageRun) (store : Assoc MessageRun) (o : Option MessageRun)
    → settle (put_new run store o).0 ≡ acknowledged
unfolding settle put_new
settle-put_new run store none = refl
settle-put_new run store (some old) = refl

settle-create :
    (available : Bool) (run : MessageRun) (store : Assoc MessageRun)
    → (settle (create available run store).0 ≡ acknowledged) ↔ (available ≡ true)
unfolding create settle
settle-create true run store =
    ((λ h. refl), (λ h. settle-put_new run store (lookup run.name store)))
settle-create false run store = ((λ h. ground arith), (λ h. ground arith))

create-unavailable :
    (available : Bool) (run : MessageRun) (store : Assoc MessageRun)
    → available ≡ false
    → (create available run store).1 ≡ store
unfolding create
create-unavailable true run store h = ground arith
create-unavailable false run store h = refl

-- Whatever is delivered, and whenever the API server is available: the FlowRun that stands under a
-- name is the one that was there, else that of the first message of this name that was handled while
-- it was available. The next message, also where another has its name, is acknowledged exactly if the
-- API server is available, where it is from AMQP or JetStream. If it is not available, no FlowRun is
-- made of it, and yet it is acknowledged where it is from Kafka, and unanswered from NATS without
-- JetStream.
pub deliver_first :
    (name : String) (deliveries : List (Bool × MessageRun)) (store : Assoc MessageRun)
    (available : Bool) (run : MessageRun)
    → (lookup name (deliver deliveries store) ≡ first_of name deliveries (lookup name store))
      × ((settle (create available run (deliver deliveries store)).0 ≡ acknowledged)
          ↔ (available ≡ true))
      × ((settle_nats true (create available run (deliver deliveries store)).0 ≡ acknowledged)
          ↔ (available ≡ true))
      × (available ≡ false
          → ((create available run (deliver deliveries store)).1 ≡ deliver deliveries store)
            × (settle_kafka (create available run (deliver deliveries store)).0 ≡ acknowledged)
            × (settle_nats false (create available run (deliver deliveries store)).0 ≡ unanswered))
unfolding settle_kafka settle_nats
deliver_first name deliveries store available run = (
  lookup-deliver name deliveries store,
  settle-create available run (deliver deliveries store),
  settle-create available run (deliver deliveries store),
  λ h. (create-unavailable available run (deliver deliveries store) h, refl, refl),
)
