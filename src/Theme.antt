-- ===== src/Theme.antt =====
-- crates/kunkka-core/src/theme/mod.rs: the active flavor and how it is changed. A palette's colors,
-- the schedule's times and the file's JSON are left aside; `save` is what writing the file answers.
-- The core's flavors are those of the protocol, one for one.
pub mod Schedule
pub mod Clock
use kunkka.Base.{String, Option, List}
use kunkka.Base.Fallible.{Result}
use kunkka.Protocol.{ThemeFlavor, latte, macchiato}

pub record ThemeSchedule : Type 0 where
  pub light_at : String
  pub dark_at : String

pub record ThemeHook : Type 0 where
  pub name : String
  pub script : String

pub record ThemeConfig : Type 0 where
  pub active_flavor : ThemeFlavor
  pub schedule : Option ThemeSchedule
  pub hooks : List ThemeHook

module _ (save : ThemeConfig → Result String (Unit {0})) where
  unfoldable pub switch_flavor : ThemeFlavor → ThemeConfig → Result String (Unit {0}) × ThemeConfig
  switch_flavor flavor c =
      let switched = record c { active_flavor = flavor } in (save switched, switched)

  unfoldable pub toggle_flavor : ThemeConfig → Result String (Unit {0}) × ThemeConfig
  unfolding switch_flavor
  toggle_flavor c = elim c.active_flavor [
    | latte ↦ switch_flavor macchiato c
    | macchiato ↦ switch_flavor latte c
  ]

  unfoldable pub update_schedule :
      Option ThemeSchedule → ThemeConfig → Result String (Unit {0}) × ThemeConfig
  update_schedule schedule c =
      let changed = record c { schedule = schedule } in (save changed, changed)
