-- ===== src/Config/ArgumentParser/Endings.antt =====
-- How the constructor of config/ArgumentParser.cpp ends.
use ntmd.Base.{◌≡◌, ◌⊎◌, Bool, true, Text}
use ntmd.Base.Outcome.{Outcome, ok, throws, exits, undefined, ◌>>=◌}
use ntmd.Config.ArgumentParser.{ArgumentParser, Argument, take_value}

-- A value, or exit status 0 or 2.
abbrev IsEnding : {A : Type 0} → Outcome A → Type 0
IsEnding (ok a) = Unit
IsEnding (exits n) = (n ≡ 0) ⊎ (n ≡ 2)
IsEnding (throws x) = ⊥
IsEnding undefined = ⊥

module _ (is_regular_file : Text → Bool) where
  -- an argument in front of two continuations: without it, and without its value too
  abbrev passed :
      Argument
      → Text
      → ArgumentParser
      → (ArgumentParser → Outcome ArgumentParser)
      → (ArgumentParser → Outcome ArgumentParser)
      → Outcome ArgumentParser
  passed Argument.help value a next skip = exits 0
  passed Argument.daemon value a next skip = next (record a { daemon = true })
  passed Argument.debug value a next skip = next (record a { debug = true })
  passed Argument.invalid value a next skip = exits 2
  passed arg value a next skip = take_value is_regular_file arg value a >>= skip
