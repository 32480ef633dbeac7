-- ===== src/Transport/Platform.antt =====
-- What lies outside the program: the clocks, the cancellation flags and the processes that the
-- injected runners start. Each observation and each call takes one step, and what it finds is an
-- arbitrary function of the step; the trace keeps the calls that were made, the latest first.
use cyberia_vpn.Prelude.{ℕ, suc, Bool, List, Option, ◌∷◌, Result, ok, is_ok}
use cyberia_vpn.Exec.{Exec, pure, ◌>>◌}
use cyberia_vpn.Text.{Text}
use cyberia_vpn.Transport.Types.{TransportError}

-- core/transport/src/linux.rs: one command invocation.
pub record CommandSpec : Type 0 where
  pub program : Text
  pub arguments : List Text

-- The calls of a runner: `CommandRunner::run`, `output` and `input`, and `NftablesRunner::apply`.
pub data Call : Type 0 where
  run output : CommandSpec → Call
  input : CommandSpec → Text → Call
  nft : Text → Call

pub record Event : Type 0 where
  pub call : Call
  pub success : Bool

-- `std::io::Error`: the code of the operating system, whether its kind is `WouldBlock`, and its text.
pub record IoError : Type 0 where
  pub raw_os_error : Option ℕ
  pub would_block : Bool
  pub shown : Text

-- What `fs::symlink_metadata` and `File::metadata` tell of a file.
pub record Metadata : Type 0 where
  pub is_file : Bool
  pub is_dir : Bool
  pub is_symlink : Bool
  pub mode : ℕ
  pub len : ℕ

-- How the sources open files: a configuration to read, and a lock that is created if it is not there.
pub data OpenMode : Type 0 where
  read_only lock_file : OpenMode

-- An open file: what its metadata, reading it to its end, and locking it answer.
pub record OpenFile : Type 0 where
  pub metadata : Result IoError Metadata
  pub content : Result IoError Text
  pub lock : Result IoError (Unit {0})

pub record World : Type 0 where
  pub step : ℕ
  pub instants : ℕ → ℕ
  pub unix_seconds : ℕ → ℕ
  pub flags : ℕ → ℕ → Bool
  pub files : ℕ → Text → Result IoError Metadata
  pub opens : ℕ → OpenMode → Text → Result IoError OpenFile
  pub debug_text : Text → Text  -- `{:?}` of a text, by the library's tables of printable characters
  pub replies : ℕ → Call → Result TransportError Text
  pub trace : List Event

-- `Instant::now()`.
unfoldable pub now : World → ℕ × World
now w = (w.instants w.step, record w { step = suc w.step })

-- `SystemTime::now()`, in seconds since the epoch.
unfoldable pub unix_now : World → ℕ × World
unix_now w = (w.unix_seconds w.step, record w { step = suc w.step })

-- `CancellationToken::is_cancelled`.
unfoldable pub is_cancelled : ℕ → World → Bool × World
is_cancelled token w = (w.flags w.step token, record w { step = suc w.step })

unfoldable pub symlink_metadata : Text → World → Result IoError Metadata × World
symlink_metadata path w = (w.files w.step path, record w { step = suc w.step })

-- `OpenOptions::open`, which follows no symbolic link.
unfoldable pub open_file : OpenMode → Text → World → Result IoError OpenFile × World
open_file mode path w = (w.opens w.step mode path, record w { step = suc w.step })

-- A call of a runner, with the output of the process.
unfoldable pub call : Call → Exec TransportError World Text
call c w =
    let reply = w.replies w.step c in
    (
      reply,
      record w { step = suc w.step; trace = record { call = c; success = is_ok reply } ∷ w.trace },
    )

-- `runner.run(&CommandSpec { program, arguments })`.
unfoldable pub command : Text → List Text → Exec TransportError World (Unit {0})
command program arguments = do
  call (run (record { program = program; arguments = arguments }))
  pure tt

-- `runner.input(&CommandSpec { program, arguments }, input)`.
unfoldable pub feed : Text → List Text → Text → Exec TransportError World (Unit {0})
feed program arguments text = do
  call (input (record { program = program; arguments = arguments }) text)
  pure tt

-- `runner.output(&CommandSpec { program, arguments })`.
unfoldable pub output_of : Text → List Text → Exec TransportError World Text
output_of program arguments = call (output (record { program = program; arguments = arguments }))

module _ {S A : Type 0} where
  -- A call that changes the world alone, made by a method of an object.
  abbrev pub on_world : Exec TransportError World A → Exec TransportError (S × World) A
  on_world m (s, w) = let r = m w in (r.0, (s, r.1))

module _ {S : Type 0} where
  abbrev pub self : Exec TransportError (S × World) S
  self (s, w) = (ok s, (s, w))

  abbrev pub set_self : S → Exec TransportError (S × World) (Unit {0})
  set_self s (t, w) = (ok tt, (s, w))
