-- ===== src/Rabbitmq/Publisher/Confirms.antt =====
-- What a publication without an error tells about the notices of the broker.
use mentor_ia_worker.Prelude.{
  Bool, true, false, Option, none, some, List, [], ◌∷◌, ◌++◌, ◌≡◌, refl, ap, ◌∙◌, sym,
  if◌then◌else◌,
}
use mentor_ia_worker.Text.{Bytes}
use mentor_ia_worker.Domain.Errors.{Error, ok, err, plain}
use mentor_ia_worker.Rabbitmq.Publisher.{
  Confirmation, Return, Publishing, Wire, Case, on_return, on_confirmation, on_done, Meanwhile,
  returned_too, on_returns, confirmed, on_confirms, wait_for_publish, arriving, sending,
  sent_or_failed, publish, unroutable,
}

-- The next confirmation of a channel is a positive one, and is the only notice that is used.
pub record IsConfirmed (before after : Wire) : Type 0 where
  pub confirmation : Confirmation
  pub first : before.confirms ≡ confirmation ∷ after.confirms
  pub positive : confirmation.ack ≡ true
  pub no_return : before.returns ≡ []
  pub open_returns : before.returns_closed ≡ false
  pub same_sent : after.sent ≡ before.sent

returned_too-ok :
    (n n' : Wire) (returns : List Return) (closed : Bool)
    → returned_too returns closed n ≡ (ok tt, n')
    → (returns ≡ []) × (closed ≡ false) × (n ≡ n')
unfolding returned_too
returned_too-ok n n' (r ∷ rest) closed e = cc
returned_too-ok n n' [] true e = cc
returned_too-ok n n' [] false e = (refl, refl, ap (λ p. p.1) e)

confirmed-ok :
    (c : Confirmation) (n n' : Wire)
    → confirmed c n ≡ (ok tt, n')
    → (c.ack ≡ true) × (n.returns ≡ []) × (n.returns_closed ≡ false) × (n ≡ n')
unfolding confirmed
confirmed-ok c n n' e = decided c.ack e
  where
    decided :
        (b : Bool)
        → (if b
            then returned_too n.returns n.returns_closed n
            else (err (plain "RabbitMQ rejeitou publicacao"), n))
          ≡ (ok tt, n')
        → (b ≡ true) × (n.returns ≡ []) × (n.returns_closed ≡ false) × (n ≡ n')
    decided true p =
        let (none_back, still_open, same) = returned_too-ok n n' n.returns n.returns_closed p in
        (refl, none_back, still_open, same)
    decided false p = cc

on_confirms-ok :
    (confirms : List Confirmation) (closed : Bool) (n n' : Wire)
    → n.confirms ≡ confirms
    → on_confirms confirms closed n ≡ some (ok tt, n')
    → IsConfirmed n n'
unfolding on_confirms
on_confirms-ok (c ∷ rest) closed n n' p e =
    let (positive, no_return, open_returns, same) =
      confirmed-ok c (record n { confirms = rest }) n' (cc (e)) in
    record {
      confirmation = c;
      first = p ∙ ap (λ w. c ∷ w.confirms) same;
      positive = positive;
      no_return = no_return;
      open_returns = open_returns;
      same_sent = ap (λ w. w.sent) (sym same);
    }
on_confirms-ok [] true n n' p e = cc
on_confirms-ok [] false n n' p e = cc

on_returns-ok :
    (returns : List Return) (closed : Bool) (n n' : Wire)
    → on_returns returns closed n ≡ some (ok tt, n')
    → IsConfirmed n n'
unfolding on_returns
on_returns-ok (r ∷ rest) closed n n' e = cc
on_returns-ok [] true n n' e = cc
on_returns-ok [] false n n' e = cc

wait_for_publish-ok :
    (ended : Option Error) (taken : Case) (n n' : Wire)
    → wait_for_publish ended taken n ≡ some (ok tt, n')
    → IsConfirmed n n'
unfolding wait_for_publish
wait_for_publish-ok ended on_return n n' e = on_returns-ok n.returns n.returns_closed n n' e
wait_for_publish-ok ended on_confirmation n n' e =
    on_confirms-ok n.confirms n.confirms_closed n n' refl e
wait_for_publish-ok (some x) on_done n n' e = cc
wait_for_publish-ok none on_done n n' e = cc

sent_or_failed-ok :
    (send : Option Error) (key : Bytes) (p : Publishing) (m : Meanwhile) (n n' : Wire)
    → sent_or_failed send key p m n ≡ some (ok tt, n')
    → (send ≡ none) × IsConfirmed (arriving m (sending key p n)) n'
unfolding sent_or_failed
sent_or_failed-ok none key p m n n' e = (refl, wait_for_publish-ok m.ended m.taken _ n' e)
sent_or_failed-ok (some x) key p m n n' e = cc

-- If no notice of an earlier publication is waiting, a publication that returns no error was sent,
-- a positive confirmation came in while it lasted and is the one that was used up, and nothing was
-- returned as unroutable.
pub publish-confirmed :
    (key : Bytes) (p : Publishing) (m : Meanwhile) (n n' : Wire)
    → n.confirms ≡ []
    → n.returns ≡ []
    → publish key p m n ≡ some (ok tt, n')
    → (m.send ≡ none)
      × (n'.sent ≡ (key, p) ∷ n.sent)
      × (m.returns ≡ [])
      × ((c : Confirmation) × (m.confirms ≡ c ∷ n'.confirms) × (c.ack ≡ true))
unfolding publish
publish-confirmed key p m n n' no_confirms no_returns e =
    let (sent, used) = sent_or_failed-ok m.send key p m n n' e in
    (
      sent,
      used.same_sent,
      ap (λ l. l ++ m.returns) (sym no_returns) ∙ used.no_return,
      (used.confirmation, ap (λ l. l ++ m.confirms) (sym no_confirms) ∙ used.first, used.positive),
    )

-- The message comes back as unroutable and is confirmed after that, which is what the broker does
-- with a `mandatory` message; the `select` takes the return.
abbrev pub refused : Return → Confirmation → Meanwhile
refused r c = record {
  send = none;
  confirms = c ∷ [];
  returns = r ∷ [];
  ended = none;
  taken = on_return;
}

-- The message is sent, and the broker says nothing about it.
abbrev pub unanswered : Meanwhile
unanswered = record {
  send = none;
  confirms = [];
  returns = [];
  ended = none;
  taken = on_confirmation;
}

-- After a publication that came back as unroutable and whose confirmation came too, the next one
-- returns no error although the broker has said nothing about it.
pub publish-unanswered :
    (key key' : Bytes) (p p' : Publishing) (r : Return) (c : Confirmation) (n : Wire)
    → n.confirms ≡ []
    → n.returns ≡ []
    → n.returns_closed ≡ false
    → c.ack ≡ true
    → (w w' : Wire) × (publish key p (refused r c) n ≡ some (err (unroutable r), w))
      × (publish key' p' unanswered w ≡ some (ok tt, w'))
unfolding publish sent_or_failed wait_for_publish on_returns on_confirms confirmed returned_too
publish-unanswered key key' p p' r c n no_confirms no_returns still_open positive = (
  record n { sent = (key, p) ∷ n.sent; confirms = c ∷ []; returns = [] },
  record n { sent = (key', p') ∷ (key, p) ∷ n.sent; confirms = []; returns = [] },
  rw (no_returns, no_confirms) refl,
  rw (positive, still_open) refl,
)
