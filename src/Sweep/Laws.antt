-- ===== src/Sweep/Laws.antt =====
-- The laws of internal/sweep/sweep.go: what is deleted, and when.
use vectorcore_mmsc.Base.{
  ℕ, ◌+◌, List, [], ◌∷◌, is_empty, Bool, true, ◌&&◌, ◌||◌, not, if◌then◌else◌, ok, Error, ◌≡◌, refl,
  ap, ◌⊎◌, inl, inr, arith, Bool-cases, Result-cases,
}
use vectorcore_mmsc.Base.Text.{bytes_eq, bytes_eq→eq, bytes_eq_self}
use vectorcore_mmsc.Base.TextMap.{elem}
use vectorcore_mmsc.Message.{Message, expired}
use vectorcore_mmsc.Service.{
  Call, World, update_status, append_event, create_message, delete_message, put_content,
  delete_content, submit_push, send_delivery_report, send_read_reply, send_mm4, send_mm3,
}
use vectorcore_mmsc.Sweep.{delete_keys, purge, report_expiry, expire, expire_all, sweep}

-- How often a key of the store is deleted.
unfoldable pub deletions : List ℕ → List Call → ℕ
deletions k [] = 0
deletions k (delete_content key ∷ log) = (if bytes_eq key k then 1 else 0) + deletions k log
deletions k (update_status id status ∷ log) = deletions k log
deletions k (append_event e ∷ log) = deletions k log
deletions k (create_message msg ∷ log) = deletions k log
deletions k (delete_message id ∷ log) = deletions k log
deletions k (put_content key bytes ∷ log) = deletions k log
deletions k (submit_push tracked source recipient push ∷ log) = deletions k log
deletions k (send_delivery_report msg status ∷ log) = deletions k log
deletions k (send_read_reply msg ∷ log) = deletions k log
deletions k (send_mm4 msg ∷ log) = deletions k log
deletions k (send_mm3 msg ∷ log) = deletions k log

same_empty : (a k : List ℕ) → bytes_eq a k ≡ true → is_empty a ≡ is_empty k
same_empty [] [] h = refl
same_empty [] (y ∷ k) h = cc
same_empty (x ∷ a) [] h = cc
same_empty (x ∷ a) (y ∷ k) h = refl

same_key : (a b k : List ℕ) → bytes_eq a b ≡ true → bytes_eq a k ≡ bytes_eq b k
same_key a b k h = ap (λ c. bytes_eq c k) (bytes_eq→eq a b h)

both_same : (a b k : List ℕ) → bytes_eq a k ≡ true → bytes_eq b k ≡ true → bytes_eq a b ≡ true
both_same a b k h g = rw (bytes_eq→eq a k h) (rw (bytes_eq→eq b k g) (bytes_eq_self k))

-- Purging a message deletes a key of the store once if the key is not empty and is the content
-- path or the store id, also if it is both, and deletes no other key.
pub purge-deletions :
    (k id content_path store_id : List ℕ) (log : List Call)
    → deletions k (purge id content_path store_id log)
      ≡ (if not (is_empty k) && (bytes_eq content_path k || bytes_eq store_id k) then 1 else 0)
        + deletions k log
unfolding purge delete_keys deletions elem
purge-deletions k id content_path store_id log = ground (
  arith,
  same_empty content_path k,
  same_empty store_id k,
  same_key content_path store_id k,
  both_same content_path store_id k,
)

module _ (w : World) where
  -- The message was marked as expired, and the repository agreed.
  abbrev pub Marked : List ℕ → List Call → Type 0
  Marked id [] = ⊥
  Marked id (c ∷ log) = ((c ≡ update_status id expired) × (w.outcome c log ≡ ok tt)) ⊎ Marked id log

  -- A message is deleted only after it was marked.
  abbrev pub Justified : Call → List Call → Type 0
  Justified (delete_message id) log = Marked id log
  Justified (update_status id status) log = Unit
  Justified (append_event e) log = Unit
  Justified (create_message msg) log = Unit
  Justified (put_content key bytes) log = Unit
  Justified (delete_content key) log = Unit
  Justified (submit_push tracked source recipient push) log = Unit
  Justified (send_delivery_report msg status) log = Unit
  Justified (send_read_reply msg) log = Unit
  Justified (send_mm4 msg) log = Unit
  Justified (send_mm3 msg) log = Unit

  abbrev pub IsCareful : List Call → Type 0
  IsCareful [] = Unit
  IsCareful (c ∷ log) = Justified c log × IsCareful log

  delete_keys-Marked :
      (id : List ℕ) (seen keys : List (List ℕ)) (log : List Call)
      → Marked id log
      → Marked id (delete_keys seen keys log)
  unfolding delete_keys
  delete_keys-Marked id seen [] log h = h
  delete_keys-Marked id seen (key ∷ keys) log h =
      elim (Bool-cases (is_empty key || elem key seen)) [
        | inl skipped ↦ rw skipped (delete_keys-Marked id seen keys log h)
        | inr fresh ↦
            rw fresh (delete_keys-Marked id (key ∷ seen) keys (delete_content key ∷ log) (inr h))
      ]

  delete_keys-IsCareful :
      (seen keys : List (List ℕ)) (log : List Call)
      → IsCareful log
      → IsCareful (delete_keys seen keys log)
  unfolding delete_keys
  delete_keys-IsCareful seen [] log h = h
  delete_keys-IsCareful seen (key ∷ keys) log h =
      elim (Bool-cases (is_empty key || elem key seen)) [
        | inl skipped ↦ rw skipped (delete_keys-IsCareful seen keys log h)
        | inr fresh ↦
            rw fresh (delete_keys-IsCareful (key ∷ seen) keys (delete_content key ∷ log) (tt, h))
      ]

  purge-IsCareful :
      (id content_path store_id : List ℕ) (log : List Call)
      → Marked id log
      → IsCareful log
      → IsCareful (purge id content_path store_id log)
  unfolding purge
  purge-IsCareful id content_path store_id log marked h = (
    delete_keys-Marked id [] (content_path ∷ store_id ∷ []) log marked,
    delete_keys-IsCareful [] (content_path ∷ store_id ∷ []) log h,
  )

  module _ (error_text : Error → List ℕ) (reporter : Bool) where
    report_expiry-IsCareful :
        (id : List ℕ) (msg : Message) (log : List Call)
        → Marked id log
        → IsCareful log
        → Marked id (report_expiry error_text w reporter msg log)
          × IsCareful (report_expiry error_text w reporter msg log)
    unfolding report_expiry
    report_expiry-IsCareful id msg log marked h =
        elim (Bool-cases (reporter && msg.delivery_report)) [
          | inr silent ↦ rw silent (marked, h)
          | inl asked ↦ elim (Result-cases (w.outcome (send_delivery_report msg expired) log)) [
            | inl (u, sent) ↦ rw asked (rw (sent, report_expiry) (inr marked, (tt, h)))
            | inr (e, failed) ↦
                rw asked (rw (failed, report_expiry) (inr (inr marked), (tt, (tt, h))))
          ]
        ]

    expire-IsCareful :
        (msg : Message) (log : List Call)
        → IsCareful log
        → IsCareful (expire error_text w reporter msg log)
    unfolding expire
    expire-IsCareful msg log h =
        elim (Result-cases (w.outcome (update_status msg.id expired) log)) [
          | inr (e, failed) ↦ rw (failed, expire) (tt, h)
          | inl (u, marked) ↦
              let (still, careful) =
                report_expiry-IsCareful msg.id (record msg { status = expired })
                  (update_status msg.id expired ∷ log) (inl (refl, marked)) (tt, h) in
              rw (marked, expire)
                (purge-IsCareful msg.id msg.content_path msg.store_id _ still careful)
        ]

    expire_all-IsCareful :
        (msgs : List Message) (log : List Call)
        → IsCareful log
        → IsCareful (expire_all error_text w reporter msgs log)
    unfolding expire_all
    expire_all-IsCareful [] log h = h
    expire_all-IsCareful (msg ∷ msgs) log h =
        expire_all-IsCareful msgs (expire error_text w reporter msg log)
          (expire-IsCareful msg log h)

    -- In a sweep, whatever the repository, the store and the reporter answer, a message is
    -- deleted only after the repository agreed to mark it as expired; this is kept for all the
    -- calls made, where it held of those before.
    pub sweep-IsCareful :
        (now : ℕ) (log : List Call)
        → IsCareful log
        → IsCareful (sweep error_text w reporter now log)
    unfolding sweep
    sweep-IsCareful now log h = elim (Result-cases (w.expired_messages now log)) [
      | inr (e, failed) ↦ rw (failed, sweep) h
      | inl (msgs, listed) ↦ rw (listed, sweep) (expire_all-IsCareful msgs log h)
    ]
