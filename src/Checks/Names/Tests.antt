-- ===== src/Checks/Names/Tests.antt =====
-- checks/__init__.py, normalize of class Check: names of metrics.
use sts_agent.Prelude.{none, some, ◌≡◌, refl}
use sts_agent.Checks.Names.{
  replace_chars, squeeze, drop_last, drop_after_dot, drop_before_dot, well_formed, normalize,
}
use sts_agent.Checks.Names.Normal.{IsWellFormed}
use sts_agent.Checks.Names.Twice.{normalize-IsWellFormed}

unsafe : normalize " *system. (load)/5 {min}_. x " none ≡ "system.load_5_min.x"
unfolding normalize well_formed replace_chars squeeze drop_last drop_after_dot drop_before_dot
unsafe = refl

prefixed : normalize "a._._b" (some "jmx") ≡ "jmx.a..b"
unfolding normalize well_formed replace_chars squeeze drop_last drop_after_dot drop_before_dot
prefixed = refl

normalize-IsWellFormed_example :
    IsWellFormed (normalize " *system. (load)/5" none)
    × (normalize (normalize " *system. (load)/5" none) none ≡ normalize " *system. (load)/5" none)
normalize-IsWellFormed_example = normalize-IsWellFormed " *system. (load)/5"
