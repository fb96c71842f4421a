-- ===== src/Claude/Finished.antt =====
-- A record that `Record::set` and `Record::finish` of anton-runtime/src/claude.rs fill in is one that
-- the replay may take.
use herdr_observatory.Claude.{kind_user, kind_assistant, Record}
use herdr_observatory.Claude.Fields.{
  default_record, set_all, set_agent, stamp_of, stop_of, set_other, set_message, set, hashed,
  set_head, set_user,
}
use herdr_observatory.Claude.Finish.{
  text_for, clear_assistant, Texts, derive, clear_others, Iterations, finish,
}
use herdr_observatory.Claude.KeepApply.{RecordOk}
use herdr_observatory.Common.{safe_id, take_chars, hex_id}
use herdr_observatory.Common.Prefix.{hex_id-take_chars}
use herdr_observatory.Json.{null, as_str, text, Value}
use herdr_observatory.Prelude.{
  false, Bool, List, some, Option, ℕ, true, String, [], ◌∷◌, ◌&&◌, is_none, not, none, ◌||◌, ◌==◌,
  if_elim, leb, filter, ◌≤◌, ◌≡◌, Holds, arith,
}
use herdr_observatory.Turns.Observe.{turn_key}

-- What holds of the fields while they are set.
pub record Filling (horizon : ℕ) (uuid message : Option String) (stop : ℕ) (stamp : Option ℕ)
    : Type 0 where
  pub uuid_hex : Holds (λ key. hex_id key 24 ≡ true) uuid
  pub message_hex : Holds (λ id. hex_id id 16 ≡ true) message
  pub stop_le : stop ≤ 4
  pub stamp_le : Holds (λ s. s ≤ horizon) stamp

abbrev pub FillingOk : ℕ → Record → Type 0
FillingOk horizon e = Filling horizon e.uuid e.message e.stop e.stamp

set_user-Ok :
    {horizon : ℕ} (node : ℕ) (v : Value) (e : Record)
    → FillingOk horizon e
    → FillingOk horizon (set_user node v e)
unfolding set_user
set_user-Ok node v e f = record {
  uuid_hex = ground (arith, f.uuid_hex);
  message_hex = ground (arith, f.message_hex);
  stop_le = ground (arith, f.stop_le);
  stamp_le = ground (arith, f.stamp_le);
}

set_other-Ok :
    {horizon : ℕ} (node : ℕ) (v : Value) (e : Record)
    → FillingOk horizon e
    → FillingOk horizon (set_other node v e)
unfolding set_other
set_other-Ok node v e f = record {
  uuid_hex = ground (arith, f.uuid_hex);
  message_hex = ground (arith, f.message_hex);
  stop_le = ground (arith, f.stop_le);
  stamp_le = ground (arith, f.stamp_le);
}

stop_of-le : (v : Value) → stop_of v ≤ 4
stop_of-le (text stop) = ground arith
stop_of-le null = omega arith
stop_of-le _ = omega arith

module _ (sha256 : String → String) (hex : (s : String) → hex_id (sha256 s) 64 ≡ true)
    (timestamp_us : String → Option ℕ) (id : String) (horizon : ℕ) where
  uuid-hex :
      (o : Option String)
      → Holds (λ key. hex_id key 24 ≡ true) (hashed (λ uuid. turn_key sha256 id uuid) o)
  uuid-hex none = tt
  uuid-hex (some uuid) = hex_id-take_chars (sha256 _) 64 24 (hex _) (omega arith)

  message-hex :
      (o : Option String)
      → Holds (λ m. hex_id m 16 ≡ true) (hashed (λ m. take_chars 16 (sha256 m)) o)
  message-hex none = tt
  message-hex (some m) = hex_id-take_chars (sha256 m) 64 16 (hex m) (omega arith)

  filtered-le : (o : Option ℕ) → Holds (λ s. s ≤ horizon) (filter (λ stamp. leb stamp horizon) o)
  filtered-le none = tt
  filtered-le (some stamp) = ground arith

  stamp_of-le : (o : Option String) → Holds (λ s. s ≤ horizon) (stamp_of timestamp_us horizon o)
  stamp_of-le none = tt
  stamp_of-le (some s) = filtered-le (timestamp_us s)

  set_head-Ok :
      (node : ℕ) (v : Value) (e : Record)
      → FillingOk horizon e
      → FillingOk horizon (set_head sha256 timestamp_us id horizon node v e)
  unfolding set_head
  set_head-Ok node v e f = record {
    uuid_hex = ground (arith, f.uuid_hex, uuid-hex (filter (λ uuid. safe_id uuid 128) (as_str v)));
    message_hex = ground (arith, f.message_hex);
    stop_le = ground (arith, f.stop_le);
    stamp_le = ground (arith, f.stamp_le, stamp_of-le (as_str v));
  }

  set_message-Ok :
      (node : ℕ) (v : Value) (e : Record)
      → FillingOk horizon e
      → FillingOk horizon (set_message sha256 node v e)
  unfolding set_message
  set_message-Ok node v e f = record {
    uuid_hex = ground (arith, f.uuid_hex);
    message_hex =
        ground (arith, f.message_hex, message-hex (filter (λ m. safe_id m 128) (as_str v)));
    stop_le = ground (arith, f.stop_le, stop_of-le v);
    stamp_le = ground (arith, f.stamp_le);
  }

  set_agent-Ok :
      (node : ℕ) (v : Value) (e : Record)
      → FillingOk horizon e
      → FillingOk horizon (set_agent sha256 node v e)
  unfolding set_agent
  set_agent-Ok node v e f = record {
    uuid_hex = ground (arith, f.uuid_hex);
    message_hex = ground (arith, f.message_hex);
    stop_le = ground (arith, f.stop_le);
    stamp_le = ground (arith, f.stamp_le);
  }

  pub set-Ok :
      (node : ℕ) (v : Value) (e : Record)
      → FillingOk horizon e
      → FillingOk horizon (set sha256 timestamp_us id horizon node v e)
  unfolding set
  set-Ok node v e f =
      if_elim (FillingOk horizon) (leb node 9) (λ _. set_head-Ok node v e f)
        λ _.
          if_elim (FillingOk horizon) (leb node 17) (λ _. set_message-Ok node v e f)
            λ _.
              if_elim (FillingOk horizon) (node == 29 || node == 30) (λ _. set_agent-Ok node v e f)
                λ _.
                  if_elim (FillingOk horizon) (leb node 33) (λ _. set_user-Ok node v e f)
                    (λ _. set_other-Ok node v e f)

  set_all-Ok :
      (fields : List (ℕ × Value)) (e : Record)
      → FillingOk horizon e
      → FillingOk horizon (set_all sha256 timestamp_us id horizon fields e)
  unfolding set_all
  set_all-Ok [] e f = f
  set_all-Ok ((node, v) ∷ fields) e f = set_all-Ok fields _ (set-Ok node v e f)

clear_others-Ok :
    {horizon : ℕ} (e : Record) → FillingOk horizon e → FillingOk horizon (clear_others e)
clear_others-Ok e f = record {
  uuid_hex = ground (arith, f.uuid_hex);
  message_hex = ground (arith, f.message_hex);
  stop_le = ground (arith, f.stop_le);
  stamp_le = ground (arith, f.stamp_le);
}

stopped :
    (object lost undated bad_shape : Bool) (stop : ℕ)
    → (not object || lost || stop == 0 || undated || bad_shape) ≡ false
    → 1 ≤ stop
stopped object lost undated bad_shape stop h = ground (arith, h)

derive-RecordOk :
    {horizon : ℕ} (message_object : Bool) (i : Iterations) (e : Record)
    → FillingOk horizon e
    → RecordOk horizon (derive message_object i e)
derive-RecordOk message_object i e f = record {
  uuid_hex = f.uuid_hex;
  message_hex = f.message_hex;
  stop_known = λ good _. (
    stopped message_object (is_none e.message) (is_none e.stamp) (i.shape == 2) e.stop good,
    f.stop_le,
  );
  stamp_le = f.stamp_le;
}

cleared-RecordOk :
    {horizon : ℕ} (e : Record)
    → (e.kind == kind_assistant) ≡ false
    → FillingOk horizon e
    → RecordOk horizon (clear_assistant e)
cleared-RecordOk e other f = record {
  uuid_hex = f.uuid_hex;
  message_hex = tt;
  stop_known = λ _ k. absurd (ground (arith, other, k));
  stamp_le = f.stamp_le;
}

pub finish-RecordOk :
    {horizon : ℕ} (message_object : Bool) (i : Iterations) (content prompt : Texts) (e : Record)
    → FillingOk horizon e
    → RecordOk horizon (finish message_object i content prompt e)
unfolding finish
finish-RecordOk {horizon = horizon} message_object i content prompt e f =
    let u = clear_others e in
    let k : FillingOk horizon u = clear_others-Ok e f in
    let v = record u {
      text = text_for u content prompt;
      interrupt = u.kind == kind_user && content.interrupt;
    } in
    if_elim (RecordOk horizon) (u.kind == kind_assistant)
      (λ _. derive-RecordOk message_object i v k) (λ other. cleared-RecordOk v other k)

-- Whatever fields are met in whatever order, the record that is finished is one that the replay may
-- take, given a digest of 64 hexadecimal digits.
pub set_all-RecordOk :
    (sha256 : String → String) (timestamp_us : String → Option ℕ) (id : String) (horizon : ℕ)
    (fields : List (ℕ × Value)) (message_object : Bool) (i : Iterations) (content prompt : Texts)
    → ((s : String) → hex_id (sha256 s) 64 ≡ true)
    → RecordOk horizon (
        finish message_object i content prompt
          (set_all sha256 timestamp_us id horizon fields default_record))
set_all-RecordOk sha256 timestamp_us id horizon fields message_object i content prompt hex =
    finish-RecordOk message_object i content prompt
      (set_all sha256 timestamp_us id horizon fields default_record)
      (set_all-Ok sha256 hex timestamp_us id horizon fields default_record
        (record { uuid_hex = tt; message_hex = tt; stop_le = omega arith; stamp_le = tt }))
