-- ===== src/Manager/Healthy.antt =====
-- The record files of a home: every directory of an application holds a record of that application,
-- and beside it at most another valid record.
pub mod Replaced
pub mod Steps
pub mod Listed
use lar.Base.{String, Option, none, some, ◌≡◌, subst, sym, false, List}
use lar.Store.World.{is_hidden}
use lar.Manager.Record.{InstallRecord}
use lar.Manager.Home.{holds, AppDir, Home}
use lar.Manager.Installs.{find_app}
use lar.Manager.Installs.Loaded.{IsRecord}
use lar.Manager.Replace.{stash}
use lar.Manager.Replace.Outcome.{IsStashValid}

abbrev pub IsHealthyDir : String → Option AppDir → Type 0
IsHealthyDir name none = Unit
IsHealthyDir name (some a) =
    (r : InstallRecord) × (o : Option InstallRecord) × (a.install_toml ≡ holds r)
    × (a.previous_toml ≡ stash o)
    × IsRecord name r
    × IsStashValid o

-- Directories with a hidden name, the temporary ones, do not count.
abbrev pub IsHealthy : {Desk : Type 0} → Home Desk → Type 0
IsHealthy h = (name : String) → is_hidden name ≡ false → IsHealthyDir name (find_app h.apps name)

pub IsHealthy-frame :
    {Desk : Type 0} (h h' : Home Desk)
    → ((name : String) → is_hidden name ≡ false → find_app h'.apps name ≡ find_app h.apps name)
    → IsHealthy h
    → IsHealthy h'
IsHealthy-frame h h' same p name shown =
    subst (IsHealthyDir name) (sym (same name shown)) (p name shown)
