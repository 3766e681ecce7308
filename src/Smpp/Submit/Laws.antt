-- ===== src/Smpp/Submit/Laws.antt =====
-- The laws of internal/smpp/submit.go: what was submitted of a push, and what was told of it.
use vectorcore_mmsc.Base.{
  ℕ, suc, ◌≤◌, List, [], ◌∷◌, length, is_empty, true, false, Result, ok, err, ◌≡◌, refl, inl, inr,
  arith, Result-cases, Bool-cases, ==_iff, ◌==◌, ok_before, Option, none, some, ap, ◌∙◌, sym,
}
use vectorcore_mmsc.Base.Int.{ℤ, pos, byte_of}
use vectorcore_mmsc.Smpp.Pdu.{Pdu}
use vectorcore_mmsc.Smpp.Upstream.{
  Upstream, Config, or_default, is_set, config_of, same_runtime_config, same_runtime_config-Agree,
}
use vectorcore_mmsc.Smpp.Submit.{
  dest_or_one, submit_request, remote_id, Told, submit_segment, submit_segments,
  submit_wap_push_tracked,
}
use vectorcore_mmsc.Wappush.Sms.{segment_count}
use vectorcore_mmsc.Wappush.Sms.Reassembly.{joined, segment_binary_sms-joined}

dest_or_one-row :
    (d : Option ℤ)
    → dest_or_one (byte_of (or_default (pos 1) d)) (is_set d) ≡ byte_of (or_default (pos 1) d)
dest_or_one-row none = refl
dest_or_one-row (some x) = ground arith

-- The fields of two configurations that show in what is submitted agree.
abbrev Sends : Config → Config → Type 0
Sends c d =
    (c.source_addr_ton_set ≡ d.source_addr_ton_set)
    × (c.source_addr_npi_set ≡ d.source_addr_npi_set)
    × (c.source_addr_ton ≡ d.source_addr_ton)
    × (c.source_addr_npi ≡ d.source_addr_npi)
    × (c.registered_delivery ≡ d.registered_delivery)
    × (dest_or_one c.dest_addr_ton c.dest_addr_ton_set
        ≡ dest_or_one d.dest_addr_ton d.dest_addr_ton_set)
    × (dest_or_one c.dest_addr_npi c.dest_addr_npi_set
        ≡ dest_or_one d.dest_addr_npi d.dest_addr_npi_set)

config_of-Sends :
    (old row : Upstream)
    → same_runtime_config (config_of old) row ≡ true
    → Sends (config_of old) (config_of row)
unfolding config_of
config_of-Sends old row h =
    let agree = same_runtime_config-Agree (config_of old) row h in
    (
      agree.9,
      agree.10,
      agree.7,
      agree.8,
      agree.6,
      dest_or_one-row old.dest_addr_ton ∙ agree.11 ∙ sym (dest_or_one-row row.dest_addr_ton),
      dest_or_one-row old.dest_addr_npi ∙ agree.12 ∙ sym (dest_or_one-row row.dest_addr_npi),
    )

submit_request_fields :
    (seq : ℕ) (source msisdn payload : List ℕ) (c d : Config)
    → Sends c d
    → submit_request c seq source msisdn payload ≡ submit_request d seq source msisdn payload
unfolding submit_request
submit_request_fields seq source msisdn payload c d (h0, h1, h2, h3, h4, h5, h6) = cc

module _ (seq : ℕ) (source msisdn payload : List ℕ) where
  -- A client that stays for a row, because its configuration compares as the same as the row,
  -- submits the unit that a client made of the row would submit.
  pub submit_request_kept :
      (old row : Upstream)
      → same_runtime_config (config_of old) row ≡ true
      → submit_request (config_of old) seq source msisdn payload
        ≡ submit_request (config_of row) seq source msisdn payload
  submit_request_kept old row h =
      submit_request_fields seq source msisdn payload (config_of old) (config_of row)
        (config_of-Sends old row h)

module _ (connected : ℕ → Result ℕ) (request : Pdu → ℕ → Result Pdu)
    (tracker : Told → Result (Unit {0})) (cfg : Config) (source msisdn : List ℕ) where
  -- A segment was accepted with this message id: the connection gave it a sequence number, and the
  -- answer to its unit had the status zero and this id.
  abbrev pub IsAnswered : ℕ → List ℕ → List ℕ → Type 0
  IsAnswered index segment remote =
      (seq : ℕ) × (resp : Pdu) × (connected index ≡ ok seq)
      × (request (submit_request cfg seq source msisdn segment) 0x80000004 ≡ ok resp)
      × (resp.command_status ≡ 0)
      × (resp.message_id ≡ remote)

  remote_id-accepted :
      (resp : Pdu) (remote : List ℕ)
      → remote_id resp ≡ ok remote
      → (resp.command_status ≡ 0) × (resp.message_id ≡ remote)
  unfolding remote_id
  remote_id-accepted resp remote h = elim (Bool-cases (resp.command_status == 0)) [
    | inl zero_ ↦ ((==_iff _ _).0 zero_, cc (rw zero_ at h))
    | inr other ↦ absurd (cc (rw other at h))
  ]

  submit_segment-IsAnswered :
      (index : ℕ) (segment remote : List ℕ)
      → submit_segment connected request tracker cfg source msisdn index segment ≡ ok remote
      → IsAnswered index segment remote
  unfolding submit_segment
  submit_segment-IsAnswered index segment remote h =
      let (seq, open_, h1) = ok_before (connected index) _ h in
      let (resp, answered, h2) =
        ok_before (request (submit_request cfg seq source msisdn segment) 0x80000004) remote_id
          h1 in
      let (zero_, id) = remote_id-accepted resp remote h2 in (seq, resp, open_, answered, zero_, id)

  -- Each told item is that of the segment at its place, with the message id of the answer.
  abbrev pub Accepted : ℕ → ℕ → List (List ℕ) → List Told → Type 0
  Accepted index count segments [] = Unit
  Accepted index count [] (told ∷ rest) = ⊥
  Accepted index count (segment ∷ segments) (told ∷ rest) =
      (told.0 ≡ index)
      × (told.1 ≡ count)
      × IsAnswered index segment told.2
      × Accepted (suc index) count segments rest

  -- On success every segment was told, and on an error no more than there are.
  abbrev pub Complete : List (List ℕ) → List Told × Result (Unit {0}) → Type 0
  Complete segments (told, ok u) = length told ≡ length segments
  Complete segments (told, err e) = length told ≤ length segments

  Complete-cons :
      (segment : List ℕ) (segments : List (List ℕ)) (item : Told) (told : List Told)
      (end : Result (Unit {0}))
      → Complete segments (told, end)
      → Complete (segment ∷ segments) (item ∷ told, end)
  Complete-cons segment segments item told (ok u) h = ap suc h
  Complete-cons segment segments item told (err e) h = omega arith

  pub submit_segments-Accepted :
      (index count : ℕ) (segments : List (List ℕ))
      → let out =
          submit_segments connected request tracker cfg source msisdn index count segments in
        Accepted index count segments out.0 × Complete segments out
  unfolding submit_segments
  submit_segments-Accepted index count [] = (tt, refl)
  submit_segments-Accepted index count (segment ∷ segments) =
      let rest = submit_segments-Accepted (suc index) count segments in
      elim (Result-cases
        (submit_segment connected request tracker cfg source msisdn index segment)) [
          | inr (e, failed) ↦ rw (failed, submit_segments) (tt, omega arith)
          | inl (remote, sent) ↦ elim (Result-cases (tracker (index, count, remote))) [
            | inr (e, refused) ↦
                rw (sent, submit_segments)
                  (rw refused (
                    (refl, refl, submit_segment-IsAnswered index segment remote sent, tt),
                    omega arith,
                  ))
            | inl (u, agreed) ↦
                rw (sent, submit_segments)
                  (rw agreed (
                    (refl, refl, submit_segment-IsAnswered index segment remote sent, rest.0),
                    Complete-cons segment segments (index, count, remote) _ _ rest.1,
                  ))
          ]
        ]

  -- For a push of 1 to 32640 bytes there are segments that join to the push, and what the
  -- tracker was told of are the first of them, in their order from 0, each with their number
  -- and the message id of an answer with the command status 0 to the request that carries the
  -- segment under the sequence number it was given: all of them where the call returns nil.
  pub submit_wap_push_tracked-Accepted :
      (ref : ℕ) (push : List ℕ)
      → is_empty push ≡ false
      → length push ≤ 32640
      → (segments : List (List ℕ)) × (joined segments ≡ push)
        × (length segments ≡ segment_count push)
        × (let out =
              submit_wap_push_tracked connected request tracker cfg source msisdn (ok ref) push in
            Accepted 0 (segment_count push) segments out.0 × Complete segments out)
  unfolding submit_wap_push_tracked
  submit_wap_push_tracked-Accepted ref push full short =
      let (segments, e, join_, count, numbered) = segment_binary_sms-joined push ref full short in
      (
        segments,
        join_,
        count,
        rw (e, submit_wap_push_tracked)
            (rw (sym count) (submit_segments-Accepted 0 (length segments) segments)),
      )
