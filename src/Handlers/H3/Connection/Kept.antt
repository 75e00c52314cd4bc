-- ===== src/Handlers/H3/Connection/Kept.antt =====
-- The streams that the loop of an HTTP/3 connection keeps and drops.
use single_binary_static_web.Prelude.{
  ℕ, ◌%◌, ◌≡◌, refl, ap, ◌∙◌, sym, false, List, [], ◌∷◌, ◌++◌, append_assoc, append-nil, none, some,
  ◌>>=◌, >>=-eq-some, some_inj, subst, get_elem?, length, Bool-cases, Option-cases, inl, inr,
}
use single_binary_static_web.Handlers.H3.Connection.{
  Channel, Ending, finished, Loop, Event, done_with, request, goaway, failed, clear, send_request,
  loop_step, unless_ended, h3_run, done_streams, all_streams,
}

sent-all_streams :
    (l : Loop) (idx resolver : ℕ) (c : Channel)
    → all_streams (send_request (clear l) idx resolver c) ≡ all_streams l
sent-all_streams l idx resolver c = elim (Bool-cases c.is_open) [
  | inl up ↦
      rw (up, append-nil l.finished_rx) (append_assoc l.dropped l.pending_streams l.finished_rx)
  | inr down ↦ rw down (append_assoc l.dropped l.pending_streams l.finished_rx)
]

loop_step-all_streams :
    (e : Event) (l l' : Loop)
    → loop_step e l ≡ some l'
    → all_streams l' ≡ all_streams l ++ done_streams (e ∷ [])
unfolding loop_step
loop_step-all_streams (done_with s) l l' h =
    subst (λ x. all_streams x ≡ all_streams l ++ s ∷ []) (some_inj h)
      (ap (λ t. l.dropped ++ t) (sym (append_assoc l.pending_streams l.finished_rx (s ∷ [])))
        ∙ sym (append_assoc l.dropped (l.pending_streams ++ l.finished_rx) (s ∷ [])))
loop_step-all_streams (request resolver) l l' h =
    let (c, at, made) = >>=-eq-some (get_elem? l.senders (l.next_handler % length l.senders)) _ h in
    subst (λ x. all_streams x ≡ all_streams l ++ []) (some_inj made)
      (sent-all_streams l _ resolver c ∙ sym (append-nil (all_streams l)))
loop_step-all_streams goaway l l' h =
    subst (λ x. all_streams x ≡ all_streams l ++ []) (some_inj h) (sym (append-nil (all_streams l)))
loop_step-all_streams failed l l' h =
    subst (λ x. all_streams x ≡ all_streams l ++ []) (some_inj h) (sym (append-nil (all_streams l)))

-- A loop that has ended stays as it is.
run_ended : (es : List Event) (l : Loop) {e : Ending} → l.ending ≡ some e → h3_run es l ≡ some l
unfolding h3_run
run_ended [] l h = refl
run_ended (x ∷ es) l h =
    ap (λ o. unless_ended o (loop_step x l) l >>= h3_run es) h ∙ run_ended es l h

done_streams-append :
    (e : Event) (es : List Event) → done_streams (e ∷ es) ≡ done_streams (e ∷ []) ++ done_streams es
done_streams-append (done_with s) es = refl
done_streams-append (request r) es = refl
done_streams-append goaway es = refl
done_streams-append failed es = refl

still_up : {e : Ending} → some e ≡ none → ⊥
still_up h = cc

-- As long as the loop runs, every stream that a handler is done with is dropped, kept or waiting,
-- once and in the order in which the handlers were done.
pub h3_run-conserves :
    (es : List Event) (l : Loop) {l' : Loop}
    → h3_run es l ≡ some l'
    → l'.ending ≡ none
    → all_streams l' ≡ all_streams l ++ done_streams es
unfolding h3_run
h3_run-conserves [] l {l' = l'} h running =
    subst (λ x. all_streams x ≡ all_streams l ++ []) (some_inj h) (sym (append-nil (all_streams l)))
h3_run-conserves (e ∷ es) l {l' = l'} h running = elim (Option-cases l.ending) [
  | inl up ↦
      let (m, made, rest) =
        >>=-eq-some (loop_step e l) (h3_run es)
          (sym (ap (λ o. unless_ended o (loop_step e l) l >>= h3_run es) up) ∙ h) in
      h3_run-conserves es m rest running
      ∙ ap (λ t. t ++ done_streams es) (loop_step-all_streams e l m made)
      ∙ append_assoc (all_streams l) (done_streams (e ∷ [])) (done_streams es)
      ∙ ap (λ t. all_streams l ++ t) (sym (done_streams-append e es))
  | inr (x, down) ↦
      let same : l ≡ l' = some_inj (sym (run_ended (e ∷ es) l down) ∙ h) in
      absurd (still_up (sym down ∙ ap (λ (k : Loop). k.ending) same ∙ running))
]

closed_ends :
    (l : Loop) (idx resolver : ℕ) (c : Channel)
    → c.is_open ≡ false
    → some finished ≡ (send_request (clear l) idx resolver c).ending
closed_ends l idx resolver c down = rw down refl

sent-keeps :
    (l : Loop) (idx resolver : ℕ) (c : Channel)
    → (send_request (clear l) idx resolver c).ending ≡ none
    → ((send_request (clear l) idx resolver c).dropped ≡ l.dropped ++ l.pending_streams)
      × ((send_request (clear l) idx resolver c).pending_streams ≡ l.finished_rx)
sent-keeps l idx resolver c h = elim (Bool-cases c.is_open) [
  | inl up ↦ rw up (refl, refl)
  | inr down ↦ absurd (still_up (closed_ends l idx resolver c down ∙ h))
]

-- Handlers are done with some streams while the loop waits.
abbrev pub waits : List ℕ → List Event → List Event
waits [] es = es
waits (s ∷ ss) es = done_with s ∷ waits ss es

-- A request that is accepted while the loop runs, and does not end it, drops the streams that were
-- kept since the request before, and keeps those that handlers were done with in between: a stream
-- outlives the first request that is accepted after its handler was done with it.
pub h3_run-keeps :
    (ss : List ℕ) (resolver : ℕ) (l : Loop) {l' : Loop}
    → l.ending ≡ none
    → h3_run (waits ss (request resolver ∷ [])) l ≡ some l'
    → l'.ending ≡ none
    → (l'.dropped ≡ l.dropped ++ l.pending_streams) × (l'.pending_streams ≡ l.finished_rx ++ ss)
unfolding h3_run loop_step
h3_run-keeps [] resolver l {l' = l'} up h running =
    let (m, made, rest) =
      >>=-eq-some (loop_step (request resolver) l) (h3_run [])
        (sym (ap (λ o. unless_ended o (loop_step (request resolver) l) l >>= h3_run []) up) ∙ h) in
    let (c, at, took) =
      >>=-eq-some (get_elem? l.senders (l.next_handler % length l.senders)) _ made in
    let is : send_request (clear l) (l.next_handler % length l.senders) resolver c ≡ l' =
      some_inj took ∙ some_inj rest in
    let (gone, kept) =
      sent-keeps l (l.next_handler % length l.senders) resolver c
        (ap (λ (k : Loop). k.ending) is ∙ running) in
    (
      ap (λ (k : Loop). k.dropped) (sym is) ∙ gone,
      ap (λ (k : Loop). k.pending_streams) (sym is) ∙ kept ∙ sym (append-nil l.finished_rx),
    )
h3_run-keeps (s ∷ ss) resolver l {l' = l'} up h running =
    let l1 : Loop = record l { finished_rx = l.finished_rx ++ s ∷ [] } in
    let (gone, kept) =
      h3_run-keeps ss resolver l1 up
        (sym (
            ap
              (λ o.
                unless_ended o (loop_step (done_with s) l) l
                >>= h3_run (waits ss (request resolver ∷ [])))
              up)
          ∙ h)
        running in
    (gone, kept ∙ append_assoc l.finished_rx (s ∷ []) ss)
