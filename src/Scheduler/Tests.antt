-- ===== src/Scheduler/Tests.antt =====
-- The scheduler on small pipes, channels and worlds.
pub mod Environment
use ocular.Prelude.{
  String, Bool, true, false, none, some, List, [], ◌∷◌, ◌≡◌, ◌≢◌, refl, sym, arith, All, ◌=ˢ◌,
  if◌then◌else◌, map, Bool-cases, inl, inr,
}
use ocular.Prelude.Int.{ℤ, pos, negsuc}
use ocular.Prelude.Dict.{lookup}
use ocular.Kube.Errors.{Error, Result, ok, err}
use ocular.Api.Common.{Target}
use ocular.Api.Search.{PipelineTemplate, scheduled_by_label_key}
use ocular.Api.Environment.{env_var_search_fifo, env_var_pipeline_fifo}
use ocular.Scheduler.Setup.{SetupOs, schedule, create_fifo}
use ocular.Scheduler.Setup.Laws.{FifoLaws, ThereAsBefore, schedule-clean}
use ocular.Samples.{search_spec, scan, meta_of}
use ocular.Scheduler.Decoder.{
  Round, Act, DecoderState, fifo_decoder, round, decode, open_then_decode,
}
use ocular.Scheduler.Decoder.Laws.{
  Balanced, is_last, fifo_decoder-Balanced, fifo_decoder-ends, fifo_decoder-stuck,
}
use ocular.Scheduler.System.{Channel, Sender, Receiver, Work, Move, Moves, start, handle}
use ocular.Scheduler.System.Laws.{creations, Moves-created}
use ocular.Scheduler.Requests.{Settings, pipeline_request}
use ocular.Scheduler.Requests.Laws.{pipeline_request-labels}

abbrev no_writer : Round String
no_writer = record { open_error = none; decoded = err (Error.other "EOF"); cancelled = false }

abbrev written : Round String
written = record { open_error = none; decoded = ok "repo"; cancelled = false }

abbrev exited : Round String
exited = record { open_error = none; decoded = err (Error.other "EOF"); cancelled = true }

abbrev gone : Round String
gone = record {
  open_error = some (Error.other "no such file");
  decoded = err (Error.other "EOF");
  cancelled = true;
}

fifo_decoder-Balanced_example :
    Balanced DecoderState.no_decoder (fifo_decoder (no_writer ∷ written ∷ exited ∷ []))
fifo_decoder-Balanced_example = fifo_decoder-Balanced (no_writer ∷ written ∷ exited ∷ [])

fifo_decoder-stuck_example :
    ((fifo_decoder (gone ∷ gone ∷ [])).1 ≡ DecoderState.no_decoder)
    × All (λ act. act ≡ Act.slept) (fifo_decoder (gone ∷ gone ∷ [])).0
fifo_decoder-stuck_example = fifo_decoder-stuck (gone ∷ gone ∷ []) (refl, (refl, tt))

abbrev name_of : String → String
name_of target = target

-- one target is decoded, handed over and created, then the crawler exits
abbrev final : Channel String String
final = record {
  sender = Sender.at DecoderState.finished;
  receiver = Receiver.done;
  decoded = "repo" ∷ [];
  work = Work.create "repo" ∷ [];
}

run : Moves (pos 60) name_of start final
unfolding round decode open_then_decode handle
run = Moves.then (Move.decode written (λ e. cc e) refl) (
    Moves.then (Move.meet refl refl) (
      Moves.then (Move.create (some (Error.other "forbidden")) refl) (
        Moves.then (Move.decode exited (λ e. cc e) refl)
          (Moves.then (Move.stop refl refl) Moves.stay))))

-- a target waits at the channel
abbrev blocked : Channel String String
blocked = record {
  sender = Sender.sending "repo";
  receiver = Receiver.receiving;
  decoded = "repo" ∷ [];
  work = [];
}

-- the target is handed over, while the crawler exits
abbrev handed_over : Channel String String
handed_over = record blocked {
  sender = Sender.at DecoderState.decoding;
  receiver = Receiver.received "repo";
}

Moves-created_example : ◌≡◌ {A = List String} ("repo" ∷ []) ("repo" ∷ [])
Moves-created_example = Moves-created (pos 60) name_of run refl

abbrev template : PipelineTemplate
template = record {
  meta = record (meta_of "") { labels = (scheduled_by_label_key, "x") ∷ [] };
  spec = scan.spec;
}

abbrev settings : Settings
settings = record {
  search_name = "nightly";
  namespace = "default";
  parent_uid = "u1";
  sleep_duration = pos 60;
  template = template;
  search_ttl = "";
  service_account = "search";
  atoi = λ s. ok (pos 60);
}

abbrev repo : Target
repo = record { identifier = "repo"; version = "2" }

pipeline_request-labels_example :
    let p = pipeline_request settings repo in
    (lookup scheduled_by_label_key p.meta.labels ≡ some "nightly")
    × (record (p.spec) { target = scan.spec.target } ≡ scan.spec)
    × (p.spec.target ≡ repo)
pipeline_request-labels_example = pipeline_request-labels settings repo scheduled_by_label_key

-- a world is the test whether a path is there
abbrev World : Type 0
World = String → Bool

abbrev there : String → World → Bool
there path w = w path

abbrev setup : SetupOs World
setup = record {
  getenv = λ name. name;
  atoi = λ s. ok (pos 60);
  clientset = ok tt;
  open_template = λ path. none;
  decode_template = λ path. ok template;
  mkfifo = λ path w.
      if w path
      then (w, some (Error.other "file exists"))
      else ((λ q. if path =ˢ q then true else w q), none);
  chmod = λ path w. w;
  remove = λ path w.
      if w path
      then ((λ q. if path =ˢ q then false else w q), none)
      else (w, some (Error.other "no such file"));
}

setup-FifoLaws : FifoLaws setup there
setup-FifoLaws = record {
  made = λ p q s h. elim (Bool-cases (s p)) [ inl e ↦ ground arith | inr e ↦ (e, rw (e) refl) ];
  not_made = λ p q s x h. ground arith;
  permitted = λ p q s. refl;
  removed =
      λ p q s h. elim (Bool-cases (s p)) [ inl e ↦ rw (e) refl | inr e ↦ absurd (ground arith) ];
  not_removed = λ p q s x h. ground arith;
}

-- the path of the pipe for searches is there already
abbrev taken : World
taken q = q =ˢ env_var_search_fifo

schedule-clean_example :
    ThereAsBefore setup there setup-FifoLaws env_var_pipeline_fifo taken (schedule setup taken).0
unfolding schedule create_fifo
schedule-clean_example = schedule-clean setup there setup-FifoLaws taken env_var_pipeline_fifo refl
