-- ===== src/Logger.antt =====
-- lib/include/hacpp/logger.h: which logger the library writes to. spdlog is a parameter: its loggers,
-- with what their constructor and setters are documented to do.
mod Tests
use hacpp.Base.{String, ◌≡◌, ◌∙◌, refl, Option, none, some, List, [], ◌∷◌}

pub record Spdlog : Type 1 where
  pub Logger : Type 0
  pub Sink : Type 0
  pub Level : Type 0
  pub make : String → List Sink → Logger
  pub set_level : Level → Logger → Logger
  pub flush_on : Level → Logger → Logger
  pub name : Logger → String
  pub sinks : Logger → List Sink
  pub level : Logger → Level
  pub flush_level : Logger → Level

-- A logger has the name and the sinks that it is made with, and a setter changes one level.
pub record IsSpdlog (S : Spdlog) : Type 0 where
  pub name-make : (n : String) (ss : List S.Sink) → S.name (S.make n ss) ≡ n
  pub sinks-make : (n : String) (ss : List S.Sink) → S.sinks (S.make n ss) ≡ ss
  pub name-set_level : (v : S.Level) (l : S.Logger) → S.name (S.set_level v l) ≡ S.name l
  pub sinks-set_level : (v : S.Level) (l : S.Logger) → S.sinks (S.set_level v l) ≡ S.sinks l
  pub level-set_level : (v : S.Level) (l : S.Logger) → S.level (S.set_level v l) ≡ v
  pub name-flush_on : (v : S.Level) (l : S.Logger) → S.name (S.flush_on v l) ≡ S.name l
  pub sinks-flush_on : (v : S.Level) (l : S.Logger) → S.sinks (S.flush_on v l) ≡ S.sinks l
  pub level-flush_on : (v : S.Level) (l : S.Logger) → S.level (S.flush_on v l) ≡ S.level l
  pub flush_level-flush_on : (v : S.Level) (l : S.Logger) → S.flush_level (S.flush_on v l) ≡ v

-- `Logger`.
abbrev pub logger_name : String
logger_name = "hacpp::mqtt"

module _ (S : Spdlog) where
  open S use {Logger, make, set_level, flush_on, name, sinks, level, flush_level}

  -- What `spdlog::get` and `spdlog::default_logger` yield, and the static of `fallback_logger`, which
  -- holds nothing until the first call.
  pub record Loggers : Type 0 where
    pub registered : String → Option Logger
    pub default_logger : Logger
    pub fallback : Option Logger

  unfoldable pub default_named_logger : String → Loggers → Logger
  default_named_logger n s =
      let default_logger = s.default_logger in
      let logger = make n (sinks default_logger) in
      let logger = set_level (level default_logger) logger in
      flush_on (flush_level default_logger) logger

  -- The static is made by the first call.
  abbrev or_made : Option Logger → Loggers → Logger × Loggers
  unfolding default_named_logger
  or_made (some l) s = (l, s)
  or_made none s = let l = default_named_logger logger_name s in (l, record s { fallback = some l })

  unfoldable pub fallback_logger : Loggers → Logger × Loggers
  unfolding or_made
  fallback_logger s = or_made s.fallback s

  abbrev or_fallback : Option Logger → Loggers → Logger × Loggers
  unfolding fallback_logger
  or_fallback (some log) s = (log, s)
  or_fallback none s = fallback_logger s

  unfoldable pub logger : Loggers → Logger × Loggers
  unfolding or_fallback
  logger s = or_fallback (s.registered logger_name) s

  -- What happens between two writes: the program registers loggers and drops them, sets the default
  -- one, and the library writes.
  pub data Event : Type 0 where
    registers : (String → Option Logger) → Event
    sets_default : Logger → Event
    writes : Event

  unfoldable pub after : List Event → Loggers → Loggers
  unfolding logger
  after [] s = s
  after (registers r ∷ events) s = after events (record s { registered = r })
  after (sets_default l ∷ events) s = after events (record s { default_logger = l })
  after (writes ∷ events) s = after events (logger s).1

  write-fallback :
      (l : Logger) (s : Loggers) (o : Option Logger)
      → s.fallback ≡ some l
      → s.registered logger_name ≡ o
      → (logger s).1.fallback ≡ some l
  unfolding logger fallback_logger or_fallback or_made
  write-fallback l s (some log) e r = rw r e
  write-fallback l s none e r = rw (r, e) refl

  after-fallback :
      (l : Logger) (events : List Event) (s : Loggers)
      → s.fallback ≡ some l
      → (after events s).fallback ≡ some l
  unfolding after
  after-fallback l [] s e = e
  after-fallback l (registers r ∷ events) s e =
      after-fallback l events (record s { registered = r }) e
  after-fallback l (sets_default d ∷ events) s e =
      after-fallback l events (record s { default_logger = d }) e
  after-fallback l (writes ∷ events) s e =
      after-fallback l events (logger s).1 (write-fallback l s (s.registered logger_name) e refl)

-- With spdlog as documented, if no logger is registered as `hacpp::mqtt` at the first write, the
-- library makes one of that name, with the sinks and both levels of the default logger of that time.
-- It writes to that same logger whenever none is registered later, whatever is registered and set as
-- the default in between; and while one is registered it writes to that one.
pub logger-falls_back :
    (S : Spdlog) (s : Loggers S) (events : List (Event S))
    → IsSpdlog S
    → s.registered logger_name ≡ none
    → s.fallback ≡ none
    → let (l, t) = logger S s in
      let u = after S events t in
      (S.name l ≡ logger_name)
      × (S.sinks l ≡ S.sinks s.default_logger)
      × (S.level l ≡ S.level s.default_logger)
      × (S.flush_level l ≡ S.flush_level s.default_logger)
      × (u.registered logger_name ≡ none → (logger S u).0 ≡ l)
      × ((log : S.Logger) → u.registered logger_name ≡ some log → (logger S u).0 ≡ log)
unfolding logger fallback_logger default_named_logger or_fallback or_made
logger-falls_back S s events laws unregistered first =
    let l = default_named_logger S logger_name s in
    let kept = after-fallback S l events (record s { fallback = some l }) refl in
    rw (unregistered, first)
      (
        laws.name-flush_on _ _ ∙ laws.name-set_level _ _ ∙ laws.name-make _ _,
        laws.sinks-flush_on _ _ ∙ laws.sinks-set_level _ _ ∙ laws.sinks-make _ _,
        laws.level-flush_on _ _ ∙ laws.level-set_level _ _,
        laws.flush_level-flush_on _ _,
        λ none_left. rw (none_left, kept) refl,
        λ log found. rw found refl,
      )
