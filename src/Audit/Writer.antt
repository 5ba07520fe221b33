-- ===== src/Audit/Writer.antt =====
-- internal/audit/writer.go. The select loop is a sequence of events, each the branch that is taken;
-- `log` holds the calls of the store, oldest first, and a Bool beside an event says whether such an
-- Insert succeeds. The channel is the list of what it holds, oldest first.
pub mod Conserved
pub mod Bounds
pub mod Purges
use linkedin_api.Base.{
  ℕ, zero, suc, ◌+◌, ◌-◌, ◌*◌, ◌/◌, ◌%◌, ◌^◌, ◌≤◌, ◌<◌, ◌≡◌, refl, sym, ap, ◌∙◌, subst, fun_ext,
  ◌≢◌, ◌↔◌, ◌⊎◌, inl, inr, Bool, true, false, not, ◌&&◌, ◌||◌, Option, none, some, List, [], ◌∷◌,
  ◌++◌, map, arith, ltb, leb, ◌==◌, ==_iff, if◌then◌else◌, Bool-cases, Option-cases, is_some,
  is_none, length, length-append, is_nil, get_elem?, remove_at, length-remove_at, keep,
  length-keep-le, any, all, All, All-append, All-keep, All-remove_at, Text, codes, text_eq,
  text_eq_iff, text_eq_refl, String,
}
use linkedin_api.Base.Duration.{two_63, second}
use linkedin_api.Audit.Event.{Record}

pub record WriterConfig : Type 0 where
  pub buffer_size : ℕ
  pub batch_size : ℕ
  pub flush_interval : ℕ
  pub retention : ℕ
  pub purge_interval : ℕ

-- Insert with a batch, and Purge of what is older than an instant.
pub data StoreCall : Type 0 where
  inserts : List Record → StoreCall
  deletes : ℕ → StoreCall

pub record Writer : Type 0 where
  pub cfg : WriterConfig
  pub channel : List Record
  pub batch : List Record
  pub log : List StoreCall
  pub audit_dropped : ℕ
  pub audit_written : ℕ
  pub audit_write_errors : ℕ
  pub running : Bool

-- A duration that is not positive is zero or has its top bit set.
abbrev pub is_unset : ℕ → Bool
is_unset d = d == 0 || leb two_63 d

abbrev pub or_default : ℕ → ℕ → ℕ
or_default d default = if is_unset d then default else d

unfoldable pub new_writer : WriterConfig → Writer
new_writer cfg = record {
  cfg = record {
    buffer_size = if ltb cfg.buffer_size 1 then 1 else cfg.buffer_size;
    batch_size = if ltb cfg.batch_size 1 then 1 else cfg.batch_size;
    flush_interval = or_default cfg.flush_interval second;
    retention = cfg.retention;
    purge_interval = or_default cfg.purge_interval (3600 * second);
  };
  channel = [];
  batch = [];
  log = [];
  audit_dropped = 0;
  audit_written = 0;
  audit_write_errors = 0;
  running = true;
}

-- (*Writer).Record: sends unless the buffer is full.
unfoldable pub enqueue : Writer → Record → Writer
enqueue w rec =
    if ltb (length w.channel) w.cfg.buffer_size
    then record w { channel = w.channel ++ (rec ∷ []) }
    else record w { audit_dropped = w.audit_dropped + 1 }

unfoldable pub flush : Bool → Writer → Writer
flush ok w = if is_nil w.batch then w else record w {
  batch = [];
  log = w.log ++ (inserts w.batch ∷ []);
  audit_written = if ok then w.audit_written + length w.batch else w.audit_written;
  audit_write_errors = if ok then w.audit_write_errors else w.audit_write_errors + 1;
}

-- (*Writer).purge at an instant. An instant before the epoch is the epoch: no record is older.
unfoldable pub purge : ℕ → Writer → Writer
purge now w =
    if is_unset w.cfg.retention
    then w
    else record w { log = w.log ++ (deletes (now - w.cfg.retention) ∷ []) }

-- The branch that `run` and `drain` share: one record goes from the channel to the batch.
unfoldable pub add : Bool → Record → Writer → Writer
unfolding flush
add ok rec w =
    let w' = record w { batch = w.batch ++ (rec ∷ []) } in
    if leb w'.cfg.batch_size (length w'.batch) then flush ok w' else w'

-- The loop of `drain` over what the channel holds.
unfoldable pub drain : Bool → List Record → Writer → Writer
unfolding add
drain ok [] w = w
drain ok (rec ∷ channel) w = drain ok channel (add ok rec (record w { channel = channel }))

pub data Event : Type 0 where
  records : Record → Event
  receives : Bool → Event
  ticks : Bool → Event
  purges : ℕ → Event
  closes : Bool → Event

-- Events of the loop do nothing once it has returned. The purge with which `run` starts is an event
-- like those of the ticker.
unfoldable pub step : Writer → Event → Writer
unfolding enqueue add flush drain purge
step w (records rec) = enqueue w rec
step w (receives ok) = elim w.channel [
  | [] ↦ w
  | rec ∷ channel ↦ if w.running then add ok rec (record w { channel = channel }) else w
]
step w (ticks ok) = if w.running then flush ok w else w
step w (purges now) = if w.running then purge now w else w
step w (closes ok) =
    if w.running then flush ok (drain ok w.channel (record w { running = false })) else w

unfoldable pub run : Writer → List Event → Writer
unfolding step
run w [] = w
run w (e ∷ es) = run (step w e) es

-- The records that an event, or a sequence of events, puts into the channel.
abbrev pub entered : Writer → Event → List Record
entered w (records rec) = if ltb (length w.channel) w.cfg.buffer_size then rec ∷ [] else []
entered w (receives ok) = []
entered w (ticks ok) = []
entered w (purges now) = []
entered w (closes ok) = []

abbrev pub accepted : Writer → List Event → List Record
accepted w [] = []
accepted w (e ∷ es) = entered w e ++ accepted (step w e) es

-- The records of the batches that were handed to the store.
abbrev pub submitted : List StoreCall → List Record
submitted [] = []
submitted (inserts b ∷ cs) = b ++ submitted cs
submitted (deletes before ∷ cs) = submitted cs

-- Every record that has been accepted, in the order of acceptance.
abbrev pub holdings : Writer → List Record
holdings w = submitted w.log ++ (w.batch ++ w.channel)
