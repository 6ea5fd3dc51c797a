-- ===== src/Lifecycle/Answers.antt =====
-- kbus/kbus_main.c: the answers that kbus_empty_replies_unsent gives to the senders of the requests
-- that a Ksock has read and will not reply to.
use kbus.Prelude.{
  ℕ, ◌≡◌, ◌∙◌, refl, ap, sym, inl, inr, false, List, [], ◌∷◌, ◌++◌, append_assoc, append-nil, ◌==◌,
  if◌then◌else◌, filter, map, has_bit, drop, sub_u32, arith, Bool-cases, none, some, Option-cases,
}
use mathlib.Core.Option
use mathlib.Core.List.{map-append}
use kbus.Message.{Msg, MsgId, urgent}
use kbus.Ksock.Records.{Ksock, QueueItem, UnrepliedItem, for_sender}
use kbus.Ksock.Queue.{push_message, enqueue, pushed_item, copy_message}
use kbus.Ksock.Room.{sender_no_repeat}
use kbus.Device.{Dev, find_open_ksock}
use kbus.Device.Store.{find_ksock-update}
use kbus.Synthetic.{push_synthetic_message, build_kbus_message, replier_ignored}
use kbus.Lifecycle.{ignore_one, ignore_requests, empty_replies_unsent}

-- Which request a queued message answers, and by what name.
abbrev pub answer_of : QueueItem → MsgId × List ℕ
answer_of item = (item.msg.in_reply_to, item.msg.name_ref)

abbrev pub ignored : UnrepliedItem → MsgId × List ℕ
ignored item = (item.id, replier_ignored)

id-push_message : (k : Ksock) (msg : Msg) → (push_message k msg none for_sender).id ≡ k.id
unfolding push_message
id-push_message k msg = ground arith

answers-push_message :
    (k : Ksock) (msg : Msg)
    → has_bit urgent msg.flags ≡ false
    → map answer_of (push_message k msg none for_sender).message_queue
      ≡ map answer_of k.message_queue ++ (msg.in_reply_to, msg.name_ref) ∷ []
unfolding push_message enqueue pushed_item copy_message
answers-push_message k msg later =
    rw (sender_no_repeat k msg, later, push_message)
      (map-append answer_of k.message_queue (pushed_item msg none for_sender ∷ []))

pub find-push_synthetic_message :
    (dev : Dev) (from to s : ℕ) (id : MsgId) (name : List ℕ)
    → find_open_ksock (push_synthetic_message dev from to id name) s ≡ (
        if to == s
        then Option.map
            (λ k. push_message k (build_kbus_message dev name from to id).0 none for_sender)
            (find_open_ksock dev s)
        else find_open_ksock dev s)
unfolding push_synthetic_message
find-push_synthetic_message dev from to s id name = elim (Option-cases (find_open_ksock dev to)) [
  | inl e ↦ rw (e, push_synthetic_message) (ground (arith, e))
  | inr (k, e) ↦
      rw (e, push_synthetic_message)
        (find_ksock-update to s
          (λ j. push_message j (build_kbus_message dev name from to id).0 none for_sender)
          dev.open_ksock_list (λ j. id-push_message j (build_kbus_message dev name from to id).0))
]

ignore_one_answers :
    (dev : Dev) (priv s : ℕ) (item : UnrepliedItem) (k : Ksock)
    → (priv == s) ≡ false
    → find_open_ksock dev s ≡ some k
    → (k' : Ksock) × (find_open_ksock (ignore_one dev priv item) s ≡ some k')
      × (map answer_of k'.message_queue
          ≡ map answer_of k.message_queue ++ (if item.from == s then ignored item ∷ [] else []))
unfolding ignore_one
ignore_one_answers dev priv s item k other found = elim (Bool-cases (item.from == s)) [
  | inl e ↦ (
    push_message k (build_kbus_message dev replier_ignored priv item.from item.id).0 none
        for_sender,
    ground (
      arith,
      find-push_synthetic_message dev priv item.from s item.id replier_ignored,
      find_ksock-update priv s
          (λ k. record k {
            replies_unsent = drop 1 k.replies_unsent;
            num_replies_unsent = sub_u32 k.num_replies_unsent 1;
          })
          (push_synthetic_message dev priv item.from item.id replier_ignored).open_ksock_list
          (λ k. refl),
    ),
    rw e (
        answers-push_message k (build_kbus_message dev replier_ignored priv item.from item.id).0
          refl),
  )
  | inr e ↦ (
    k,
    ground (
      arith,
      find-push_synthetic_message dev priv item.from s item.id replier_ignored,
      find_ksock-update priv s
          (λ k. record k {
            replies_unsent = drop 1 k.replies_unsent;
            num_replies_unsent = sub_u32 k.num_replies_unsent 1;
          })
          (push_synthetic_message dev priv item.from item.id replier_ignored).open_ksock_list
          (λ k. refl),
    ),
    rw e (sym (append-nil (map answer_of k.message_queue))),
  )
]

ignore_requests_answers :
    (dev : Dev) (priv s : ℕ) (items : List UnrepliedItem) (k : Ksock)
    → (priv == s) ≡ false
    → find_open_ksock dev s ≡ some k
    → (k' : Ksock) × (find_open_ksock (ignore_requests dev priv items) s ≡ some k')
      × (map answer_of k'.message_queue
          ≡ map answer_of k.message_queue ++ map ignored (filter (λ item. item.from == s) items))
unfolding ignore_requests
ignore_requests_answers dev priv s [] k other found = (k, found, sym (append-nil _))
ignore_requests_answers dev priv s (item ∷ items) k other found =
    let (k₁, found₁, one) = ignore_one_answers dev priv s item k other found in
    let (k₂, found₂, more) =
      ignore_requests_answers (ignore_one dev priv item) priv s items k₁ other found₁ in
    let others = map ignored (filter (λ i. i.from == s) items) in
    (
      k₂,
      found₂,
      elim (Bool-cases (item.from == s)) [
        | inl e ↦ rw e (
            more
            ∙ (ap (λ l. l ++ others) one
                ∙ rw e (append_assoc (map answer_of k.message_queue) (ignored item ∷ []) others)))
        | inr e ↦ rw e (
            more
            ∙ (ap (λ l. l ++ others) one
                ∙ rw e (ap (λ l. l ++ others) (append-nil (map answer_of k.message_queue)))))
      ],
    )

-- kbus_empty_replies_unsent answers every request that an open Ksock has read and not replied to:
-- to the queue of another open Ksock it adds one Replier.Ignored for each request from there, in
-- the order of the list, and nothing else.
pub empty_replies_unsent_answers :
    (dev : Dev) (priv s : ℕ) (p k : Ksock)
    → (priv == s) ≡ false
    → find_open_ksock dev priv ≡ some p
    → find_open_ksock dev s ≡ some k
    → (k' : Ksock) × (find_open_ksock (empty_replies_unsent dev priv) s ≡ some k')
      × (map answer_of k'.message_queue
          ≡ map answer_of k.message_queue
            ++ map ignored (filter (λ item. item.from == s) p.replies_unsent))
unfolding empty_replies_unsent
empty_replies_unsent_answers dev priv s p k other here found =
    rw (here, empty_replies_unsent)
      (ignore_requests_answers dev priv s p.replies_unsent k other found)
