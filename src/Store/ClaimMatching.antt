-- ===== src/Store/ClaimMatching.antt =====
-- `claim_operation` of src/modules/bridge/operation_store.rs: the record that it returns.
use im_bridge_rs.Common.{
  String, true, false, Option, some, List, [], ◌∷◌, ◌++◌, ◌≡◌, sym, ◌∙◌, ap, inl, inr, arith,
  Bool-cases, eq_iff, ==ℤ_iff, is_blank,
}
use im_bridge_rs.Errors.{AppResult, ok, err, ok_or, internal_error}
use im_bridge_rs.Errors.Binding.{ok_or-some}
use im_bridge_rs.Operation.{BridgeOperationRecord}
use im_bridge_rs.Store.{
  OperationRow, into_record, unwrap_or_default, run, World, begin, fetch, execute, decode, decoded,
  find_operation, is_taken, ClaimOperationRequest, claim_failed, claimed_row, claim_id,
  read_claimed, claim_operation, matches_claim, get_operation, ◌>>=◌, lift,
}
use im_bridge_rs.Store.Step.{SameIdentity}
use im_bridge_rs.Store.Evolution.{RowPath-identity}
use im_bridge_rs.Store.Following.{IsIssuedWorld, begin-Follows, >>=-ok, catch-ok}
use im_bridge_rs.Store.CompareAndSet.{find_operation-Follows}
use im_bridge_rs.Store.Idempotency.{inserted, duplicate-ne-ok}

-- What a record takes over from its row.
into_record-ok :
    (r : OperationRow) (found : BridgeOperationRecord)
    → into_record r ≡ ok found
    → (found.id ≡ r.id)
      × (found.actor_id ≡ r.actor_id)
      × (found.bot_id ≡ r.bot_id)
      × (found.telegram_update_id ≡ r.telegram_update_id)
      × (found.channel_context_key ≡ r.channel_context_key)
      × (found.operation_kind ≡ r.operation_kind)
      × (found.locator.handle ≡ unwrap_or_default r.st_handle)
      × (found.locator.avatar ≡ unwrap_or_default r.st_character_avatar)
      × (found.locator.chat_file ≡ unwrap_or_default r.st_chat_file)
unfolding into_record
into_record-ok r found h = ground (arith, h)

find_operation-append :
    (new : OperationRow) (rs : List OperationRow)
    → is_taken new rs ≡ false
    → find_operation new.id (rs ++ new ∷ []) ≡ some new
unfolding is_taken find_operation
find_operation-append new [] h = ground (arith, eq_iff new.id new.id)
find_operation-append new (r ∷ rs) h =
    ground (arith, h, find_operation-append new rs (ground (arith, h)))

decode-some :
    (t : OperationRow) (r : BridgeOperationRecord)
    → decode (some t) ≡ ok (some r)
    → into_record t ≡ ok r
decode-some t r h = go (into_record t) h
  where
    go : (x : AppResult BridgeOperationRecord) → decoded x ≡ ok (some r) → x ≡ ok r
    go (ok y) h = cc h
    go (err e) h = absurd (cc h)

-- A record that is read by its id comes from the row of that id, as other tasks have moved it on.
get_operation-ok :
    (id : String) (w : World) (row : OperationRow) (r : BridgeOperationRecord)
    → IsIssuedWorld w
    → find_operation id w.db.operations ≡ some row
    → (get_operation id w).0 ≡ ok (some r)
    → (t : OperationRow) × SameIdentity row t × (into_record t ≡ ok r)
unfolding get_operation fetch
get_operation-ok id w row r iw there h = elim (Bool-cases (begin w).0) [
  | inl bad ↦ absurd (cc (rw (bad, get_operation, fetch) at h))
  | inr good ↦
      let (t, there', path) =
        find_operation-Follows id w (begin w).1 row (begin-Follows w iw) there in
      (
        t,
        RowPath-identity path,
        decode-some t r (ap decode (sym there') ∙ (rw (good, get_operation, fetch) at h)),
      )
]

read_claimed-ok :
    (id : String) (w : World) (row : OperationRow) (r : BridgeOperationRecord)
    → IsIssuedWorld w
    → find_operation id w.db.operations ≡ some row
    → (read_claimed id w).0 ≡ ok r
    → (t : OperationRow) × SameIdentity row t × (into_record t ≡ ok r)
unfolding read_claimed
read_claimed-ok id w row r iw there h =
    let missing = internal_error "claimed operation missing after insert" in
    let present = λ (found : Option BridgeOperationRecord). lift (ok_or found missing) in
    let (h₁, _) =
      catch-ok (get_operation id >>= present) (λ e. lift (err (claim_failed e))) w r (λ e x. cc x)
        h in
    let (found, h₂, h₃, _) = >>=-ok (get_operation id) present w r h₁ in
    get_operation-ok id w row r iw there (h₂ ∙ ap ok (ok_or-some found missing r h₃))

row_matches :
    (q : ClaimOperationRequest) (new_id now : String) (t : OperationRow) (r : BridgeOperationRecord)
    → SameIdentity (claimed_row q (claim_id q new_id) now) t
    → into_record t ≡ ok r
    → matches_claim r q ≡ true
unfolding matches_claim
row_matches q new_id now t r same h =
    let (id, actor, bot, update, context, kind, handle, avatar, chat) = into_record-ok t r h in
    let is_actor = (eq_iff r.actor_id q.actor_id).1 (actor ∙ same.same_actor) in
    let is_bot = (eq_iff r.bot_id q.bot_id).1 (bot ∙ same.same_bot) in
    let is_update =
      (==ℤ_iff r.telegram_update_id q.telegram_update_id).1 (update ∙ same.same_update) in
    let is_context =
      (eq_iff r.channel_context_key q.channel_context_key).1 (context ∙ same.same_context) in
    let is_kind = (eq_iff r.operation_kind q.operation_kind).1 (kind ∙ same.same_kind) in
    let is_handle =
      (eq_iff r.locator.handle q.locator.handle).1
        (handle ∙ ap unwrap_or_default same.same_handle) in
    let is_avatar =
      (eq_iff r.locator.avatar q.locator.avatar).1
        (avatar ∙ ap unwrap_or_default same.same_avatar) in
    let is_chat =
      (eq_iff r.locator.chat_file q.locator.chat_file).1
        (chat ∙ ap unwrap_or_default same.same_chat) in
    let drawn : r.id ≡ claim_id q new_id = id ∙ same.same_id in
    elim (Bool-cases (is_blank q.id)) [
      | inl blank ↦ ground (
        arith, blank, is_actor, is_bot, is_update, is_context, is_kind, is_handle, is_avatar,
        is_chat,
      )
      | inr given ↦
          let own = (eq_iff r.id q.id).1 (rw given at drawn) in
          ground (
            arith, own, is_actor, is_bot, is_update, is_context, is_kind, is_handle, is_avatar,
            is_chat,
          )
    ]

inserted_row :
    (q : ClaimOperationRequest) (new_id now : String) (w : World)
    → is_taken (claimed_row q (claim_id q new_id) now) w.db.operations ≡ false
    → find_operation (claim_id q new_id) (inserted q new_id now w).db.operations
      ≡ some (claimed_row q (claim_id q new_id) now)
unfolding run
inserted_row q new_id now w new =
    rw new (find_operation-append (claimed_row q (claim_id q new_id) now) w.db.operations new)

-- If `claim_operation` grants a claim, the record that it returns is the request's: it has the
-- request's id, unless that is blank, and its actor, bot, update, context, kind and chat.
pub claim_operation-matches_claim :
    (q : ClaimOperationRequest) (new_id now : String) (w : World) (r : BridgeOperationRecord)
    → IsIssuedWorld w
    → (claim_operation q new_id now w).0 ≡ ok r
    → matches_claim r q ≡ true
unfolding claim_operation execute
claim_operation-matches_claim q new_id now w r i h = elim (Bool-cases (begin w).0) [
  | inl bad ↦ absurd (cc (rw (bad, claim_operation, execute) at h))
  | inr good ↦
      elim (Bool-cases
        (is_taken (claimed_row q (claim_id q new_id) now) (begin w).1.db.operations)) [
          | inl taken ↦ absurd (
              duplicate-ne-ok q (inserted q new_id now (begin w).1) r
                (rw (good, claim_operation, execute, taken) at h))
          | inr new ↦
              let row = claimed_row q (claim_id q new_id) now in
              let w' = inserted q new_id now (begin w).1 in
              let there : find_operation row.id w'.db.operations ≡ some row =
                inserted_row q new_id now (begin w).1 new in
              let (t, same, read) =
                read_claimed-ok row.id w' row r (begin-Follows w i).issued_after there
                  (rw (good, claim_operation, execute, new) at h) in
              row_matches q new_id now t r same read
        ]
]
