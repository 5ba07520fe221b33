-- ===== src/Audit/Tests.antt =====
-- The audit writer at concrete inputs.
use linkedin_api.Base.{ℕ, ◌≡◌, refl, true, false, List, [], ◌∷◌, codes}
use linkedin_api.Audit.Event.{Record, new_event, snapshot}
use linkedin_api.Audit.Writer
use linkedin_api.Audit.Writer.{WriterConfig, Writer, new_writer, run, step}
use linkedin_api.Audit.Writer.Bounds.{Sized, run-new_writer-Sized}

abbrev pub entry : ℕ → Record
entry n = snapshot new_event (record {
  time = n;
  request_id = [];
  client_ip = codes "10.0.0.1";
  key_id = codes "anonymous";
  profile_id = [];
  credential_mode = [];
  cred_fp = [];
  status = 200;
  rate_decision = [];
  cached = false;
  upstream_called = false;
  upstream_outcome = [];
  retries = 0;
  latency = 5;
  error_class = [];
  sections = [];
})

abbrev pub config : WriterConfig
config = record {
  buffer_size = 3;
  batch_size = 2;
  flush_interval = 0;
  retention = 50;
  purge_interval = 0;
}

-- A purge at the start. The fourth record finds the buffer full.
abbrev pub busy : List Writer.Event
busy =
    Writer.purges 100
    ∷ Writer.records (entry 1)
    ∷ Writer.records (entry 2)
    ∷ Writer.records (entry 3)
    ∷ Writer.records (entry 4)
    ∷ Writer.receives true
    ∷ []

closes_run :
    (step (run (new_writer config) busy) (Writer.closes true)).log
    ≡ Writer.deletes 50
      ∷ Writer.inserts (entry 1 ∷ entry 2 ∷ [])
      ∷ Writer.inserts (entry 3 ∷ [])
      ∷ []
unfolding run new_writer
closes_run = refl

run-new_writer-Sized_example : Sized (new_writer config).cfg (run (new_writer config) busy)
run-new_writer-Sized_example = run-new_writer-Sized config busy
