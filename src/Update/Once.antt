-- ===== src/Update/Once.antt =====
-- `Update` of haarp/connectiontohttp2.cpp is called when a transfer ends, and again when its
-- connection is closed.
use haarpcache.Base.{
  ◌+◌, ℤ, Bool, true, false, not, ◌&&◌, ◌||◌, if◌then◌else◌, Bool-cases, eqb_ℤ, inl, inr, ◌≡◌, refl,
  sym, ap, subst, ◌∙◌, pos, arith,
}
use haarpcache.Text.{Bytes}
use haarpcache.Update.{Transfer, Replies, saved, send_miss, send_hit, send, update, release}

-- What was sent to the data base is the same.
abbrev pub SameRows : Transfer → Transfer → Type 0
SameRows t t' = (t.download.rows ≡ t'.download.rows) × (t.hit_rows ≡ t'.hit_rows)

-- A call would send something.
abbrev to_send : Bool → Bool → Bool → ℤ → Bool
to_send matched hit hasupdate filesended =
    if matched && not hit
    then not hasupdate
    else hit && not hasupdate && not (eqb_ℤ filesended (pos 0))

abbrev unsent : Transfer → Bool
unsent t = to_send t.matched t.hit t.hasupdate t.download.filesended

if_true {ℓ} : {A : Type ℓ} {b : Bool} (x y : A) → b ≡ true → (if b then x else y) ≡ x
if_true x y h = rw h refl

if_false {ℓ} : {A : Type ℓ} {b : Bool} (x y : A) → b ≡ false → (if b then x else y) ≡ y
if_false x y h = rw h refl

-- The transfer holds the lock, and it is not released.
abbrev pub to_release : Transfer → Bool
to_release t = t.matched && not (t.editing || t.was_liberate)

module _ (re : Replies) (ip : Bytes) (now : ℤ) where
  send_miss_again : (t : Transfer) → t.hasupdate ≡ true → send_miss re ip now t ≡ t
  unfolding send_miss
  send_miss_again t u = rw u refl

  send_hit_again :
      (t : Transfer)
      → not t.hasupdate && not (eqb_ℤ t.download.filesended (pos 0)) ≡ false
      → send_hit re ip now t ≡ t
  unfolding send_hit
  send_hit_again t u = rw u refl

  send_miss_done : (t : Transfer) → (send_miss re ip now t).hasupdate ≡ true
  unfolding send_miss
  send_miss_done t = elim (Bool-cases t.hasupdate) [
    | inl u ↦ rw u refl
    | inr u ↦
        rw u (elim (Bool-cases (t.editing || t.was_liberate)) [
          | inl e ↦ rw e refl
          | inr e ↦ rw e refl
        ])
  ]

  send_miss_flags :
      (t : Transfer)
      → ((send_miss re ip now t).matched ≡ t.matched) × ((send_miss re ip now t).hit ≡ t.hit)
  unfolding send_miss
  send_miss_flags t = elim (Bool-cases t.hasupdate) [
    | inl u ↦ rw u (refl, refl)
    | inr u ↦ rw u (elim (Bool-cases (t.editing || t.was_liberate)) [
      | inl e ↦ rw e (refl, refl)
      | inr e ↦ rw e (refl, refl)
    ])
  ]

  send_hit_done :
      (t : Transfer)
      → not (send_hit re ip now t).hasupdate
          && not (eqb_ℤ (send_hit re ip now t).download.filesended (pos 0))
        ≡ false
  unfolding send_hit
  send_hit_done t =
      elim (Bool-cases (not t.hasupdate && not (eqb_ℤ t.download.filesended (pos 0)))) [
        | inl u ↦ rw u refl
        | inr u ↦ rw u u
      ]

  send_hit_flags :
      (t : Transfer)
      → ((send_hit re ip now t).matched ≡ t.matched) × ((send_hit re ip now t).hit ≡ t.hit)
  unfolding send_hit
  send_hit_flags t =
      elim (Bool-cases (not t.hasupdate && not (eqb_ℤ t.download.filesended (pos 0)))) [
        | inl u ↦ rw u (refl, refl)
        | inr u ↦ rw u (refl, refl)
      ]

  release-SameRows : (b : Bool) (t : Transfer) → SameRows (release b t) t
  unfolding release
  release-SameRows b t = elim (Bool-cases (t.editing || t.was_liberate)) [
    | inl e ↦ rw e (refl, refl)
    | inr e ↦ rw e (refl, refl)
  ]

  -- A miss before it is sent.
  abbrev with_saved : Transfer → Transfer
  with_saved t = record t { download = record (t.download) { lranges = saved t.brange t.download } }

  abbrev sent_miss : Transfer → Transfer
  sent_miss t =
      let t' = send_miss re ip now (with_saved t) in
      record t' { download = record (t'.download) { acumulate = pos 0 } }

  send_as_miss : (t : Transfer) → (t.matched && not t.hit) ≡ true → send re ip now t ≡ sent_miss t
  unfolding send
  send_as_miss t c = if_true _ _ c

  send_as_hit :
      (t : Transfer)
      → (t.matched && not t.hit) ≡ false
      → t.hit ≡ true
      → send re ip now t ≡ send_hit re ip now t
  unfolding send
  send_as_hit t c h = if_false _ _ c ∙ if_true _ _ h

  send_as_none :
      (t : Transfer) → (t.matched && not t.hit) ≡ false → t.hit ≡ false → send re ip now t ≡ t
  unfolding send
  send_as_none t c h = if_false _ _ c ∙ if_false _ _ h

  send-SameRows : (t : Transfer) → unsent t ≡ false → SameRows (send re ip now t) t
  send-SameRows t u = elim (Bool-cases (t.matched && not t.hit)) [
    | inl c ↦
        let again = send_miss_again (with_saved t) (ground (arith, u, c)) in
        subst (λ k. SameRows k t) (sym (send_as_miss t c))
          (ap (λ k. k.download.rows) again, ap (λ k. k.hit_rows) again)
    | inr c ↦ elim (Bool-cases t.hit) [
      | inr h ↦ subst (λ k. SameRows k t) (sym (send_as_none t c h)) (refl, refl)
      | inl h ↦
          subst (λ k. SameRows k t)
            (sym (send_as_hit t c h ∙ send_hit_again t (ground (arith, u, c, h)))) (refl, refl)
    ]
  ]

  send_done : (t : Transfer) → unsent (send re ip now t) ≡ false
  send_done t = elim (Bool-cases (t.matched && not t.hit)) [
    | inl c ↦
        let (m, h) = send_miss_flags (with_saved t) in
        let d = send_miss_done (with_saved t) in
        subst (λ k. unsent k ≡ false) (sym (send_as_miss t c)) (ground (arith, c, m, h, d))
    | inr c ↦ elim (Bool-cases t.hit) [
      | inr h ↦ subst (λ k. unsent k ≡ false) (sym (send_as_none t c h)) (ground (arith, c, h))
      | inl h ↦
          let (m, f) = send_hit_flags t in
          let d = send_hit_done t in
          subst (λ k. unsent k ≡ false) (sym (send_as_hit t c h)) (ground (arith, c, h, m, f, d))
    ]
  ]

  unsent-release : (b : Bool) (t : Transfer) → unsent (release b t) ≡ unsent t
  unfolding release
  unsent-release b t = elim (Bool-cases (t.editing || t.was_liberate)) [
    | inl e ↦ rw e refl
    | inr e ↦ rw e refl
  ]

  -- What `update` does behind `send`.
  update-SameRows : (t : Transfer) → SameRows (update re ip now t) (send re ip now t)
  unfolding update
  update-SameRows t = elim (Bool-cases (send re ip now t).matched) [
    | inl m ↦
        let (rows, hits) = release-SameRows re.released_at_end (send re ip now t) in
        (
          ap (λ k. k.download.rows)
                (if_true (release re.released_at_end (send re ip now t)) (send re ip now t) m)
              ∙ rows,
          ap (λ k. k.hit_rows)
                (if_true (release re.released_at_end (send re ip now t)) (send re ip now t) m)
              ∙ hits,
        )
    | inr m ↦ (
      ap (λ k. k.download.rows)
          (if_false (release re.released_at_end (send re ip now t)) (send re ip now t) m),
      ap (λ k. k.hit_rows)
          (if_false (release re.released_at_end (send re ip now t)) (send re ip now t) m),
    )
  ]

  unsent-update : (t : Transfer) → unsent (update re ip now t) ≡ false
  unfolding update
  unsent-update t = elim (Bool-cases (send re ip now t).matched) [
    | inl m ↦
        subst (λ k. unsent k ≡ false) (sym (if_true _ _ m))
          (unsent-release re.released_at_end (send re ip now t) ∙ send_done t)
    | inr m ↦ subst (λ k. unsent k ≡ false) (sym (if_false _ _ m)) (send_done t)
  ]

  -- What stands of the lock is the same.
  abbrev SameLock : Transfer → Transfer → Type 0
  SameLock t t' =
      (t.releases ≡ t'.releases)
      × (t.matched ≡ t'.matched)
      × (t.editing ≡ t'.editing)
      × (t.was_liberate ≡ t'.was_liberate)

  send-SameLock : (t : Transfer) → unsent t ≡ false → SameLock (send re ip now t) t
  send-SameLock t u = elim (Bool-cases (t.matched && not t.hit)) [
    | inl c ↦
        let again = send_miss_again (with_saved t) (ground (arith, u, c)) in
        subst (λ k. SameLock k t) (sym (send_as_miss t c))
          (
            ap (λ k. k.releases) again,
            ap (λ k. k.matched) again,
            ap (λ k. k.editing) again,
            ap (λ k. k.was_liberate) again,
          )
    | inr c ↦ elim (Bool-cases t.hit) [
      | inr h ↦ subst (λ k. SameLock k t) (sym (send_as_none t c h)) (refl, refl, refl, refl)
      | inl h ↦
          subst (λ k. SameLock k t)
            (sym (send_as_hit t c h ∙ send_hit_again t (ground (arith, u, c, h))))
            (refl, refl, refl, refl)
    ]
  ]

  release_at_end :
      (b : Bool) (t : Transfer)
      → (if t.matched then release b t else t).releases
        ≡ (if to_release t then t.releases + 1 else t.releases)
  unfolding release
  release_at_end b t = elim (Bool-cases t.matched) [
    | inr m ↦ rw m refl
    | inl m ↦ elim (Bool-cases (t.editing || t.was_liberate)) [
      | inl e ↦ rw (m, e) refl
      | inr e ↦ rw (m, e) refl
    ]
  ]

  update-releases :
      (t : Transfer)
      → unsent t ≡ false
      → (update re ip now t).releases ≡ (if to_release t then t.releases + 1 else t.releases)
  unfolding update
  update-releases t u =
      let (r, m, e, w) = send-SameLock t u in
      release_at_end re.released_at_end (send re ip now t) ∙ rw (r, m, e, w) refl

-- A second call sends no row to the data base, whatever became of the first one and of what it sent.
-- It tries once to release the lock if the transfer holds it and it is not released yet, and else
-- sends nothing at all.
pub update-update :
    (re re' : Replies) (ip ip' : Bytes) (now now' : ℤ) (t : Transfer)
    → SameRows (update re' ip' now' (update re ip now t)) (update re ip now t)
      × ((update re' ip' now' (update re ip now t)).releases ≡ (
          if to_release (update re ip now t)
          then (update re ip now t).releases + 1
          else (update re ip now t).releases))
update-update re re' ip ip' now now' t =
    let first = update re ip now t in
    let done = unsent-update re ip now t in
    let (rows, hits) = update-SameRows re' ip' now' first in
    let (rows', hits') = send-SameRows re' ip' now' first done in
    ((rows ∙ rows', hits ∙ hits'), update-releases re' ip' now' first done)
