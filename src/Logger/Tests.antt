-- ===== src/Logger/Tests.antt =====
-- lib/include/hacpp/logger.h at a concrete input, with loggers that are what they were made with.
use hacpp.Base.{ℕ, String, ◌≡◌, refl, none, some, List, [], ◌∷◌, str_eq, if◌then◌else◌}
use hacpp.Logger.{
  Spdlog, IsSpdlog, logger_name, Loggers, Event, registers, sets_default, writes, logger, after,
  logger-falls_back,
}

pub record Plain : Type 0 where
  pub label : String
  pub outputs : List ℕ
  pub least : ℕ
  pub flushed : ℕ

abbrev plain : Spdlog
plain = record {
  Logger = Plain;
  Sink = ℕ;
  Level = ℕ;
  make = λ n ss. record { label = n; outputs = ss; least = 2; flushed = 6 };
  set_level = λ v l. record l { least = v };
  flush_on = λ v l. record l { flushed = v };
  name = λ l. l.label;
  sinks = λ l. l.outputs;
  level = λ l. l.least;
  flush_level = λ l. l.flushed;
}

plain-IsSpdlog : IsSpdlog plain
plain-IsSpdlog = record {
  name-make = λ n ss. refl;
  sinks-make = λ n ss. refl;
  name-set_level = λ v l. refl;
  sinks-set_level = λ v l. refl;
  level-set_level = λ v l. refl;
  name-flush_on = λ v l. refl;
  sinks-flush_on = λ v l. refl;
  level-flush_on = λ v l. refl;
  flush_level-flush_on = λ v l. refl;
}

abbrev console : Plain
console = record { label = ""; outputs = 1 ∷ []; least = 0; flushed = 4 }

abbrev own : Plain
own = record { label = "hacpp::mqtt"; outputs = 2 ∷ []; least = 0; flushed = 4 }

abbrev begun : Loggers plain
begun = record { registered = λ n. none; default_logger = console; fallback = none }

-- A logger is registered, and another set as the default, after the first write.
abbrev events : List (Event plain)
events =
    registers (λ n. if str_eq n logger_name then some own else none)
    ∷ writes
    ∷ registers (λ n. none)
    ∷ sets_default own
    ∷ writes
    ∷ []

logger-falls_back_example :
    let (l, t) = logger plain begun in
    let u = after plain events t in
    (l.label ≡ logger_name)
    × (l.outputs ≡ 1 ∷ [])
    × (l.least ≡ 0)
    × (l.flushed ≡ 4)
    × (u.registered logger_name ≡ none → (logger plain u).0 ≡ l)
    × ((log : Plain) → u.registered logger_name ≡ some log → (logger plain u).0 ≡ log)
logger-falls_back_example = logger-falls_back plain begun events plain-IsSpdlog refl refl
