-- ===== src/Gateway/Resolv.antt =====
-- `setResolvConf`, `restoreResolvConf` and the part of `cleanupPreviousRun` of
-- internal/gateway/gateway.go that is about /etc/resolv.conf. Whether each write succeeds is an
-- argument (one that fails leaves the file as it is), and the flag of `chattr` is not modelled.
pub mod Kept
use bypath.Base.{
  String, string_eq, Bool, true, false, not, ◌&&◌, ◌==◌, if◌then◌else◌, Option, none, some, ◌<>◌,
  contains_text, trim_space,
}

-- /etc/resolv.conf and its backup, if they can be read
pub record Files : Type 0 where
  pub resolv_conf : Option String
  pub backup : Option String

abbrev pub fallback : String
fallback = "nameserver 8.8.8.8\nnameserver 1.1.1.1\n"

-- the file that `os.WriteFile(resolvBackup, orig, 0644)` leaves
abbrev backed_up : Option String → Option String → Option String
backed_up none backup = backup
backed_up (some orig) backup = if not (contains_text orig "127.0.0.1") then some orig else backup

-- `setResolvConf`, where the backup can be written or not, and the file can be written or not
unfoldable pub set_resolv_conf : Bool → Bool → String → Files → Files
set_resolv_conf saves writes nameserver fs =
    let pointed = some ("nameserver " <> (nameserver <> "\n")) in
    record {
      resolv_conf = if writes then pointed else fs.resolv_conf;
      backup = if saves then backed_up fs.resolv_conf fs.backup else fs.backup;
    }

-- the backup, if it holds anything
abbrev pub useful : Option String → Option String
useful none = none
useful (some text) = if text == "" then none else some text

-- the fallback written, if that succeeds
abbrev fallen_back : Bool → Files → Files
fallen_back writes fs = record fs { resolv_conf = if writes then some fallback else fs.resolv_conf }

-- `restoreResolvConf`, by the outcomes of the write of the backup and of that of the fallback
unfoldable pub restore_resolv_conf : Bool → Bool → Files → Files
restore_resolv_conf restores writes fs = elim (useful fs.backup) [
  | none ↦ fallen_back writes fs
  | some text ↦
      if restores then record { resolv_conf = some text; backup = none } else fallen_back writes fs
]

-- what is written in place of a file that points to the gateway
abbrev unpointed : Option String → Option String
unpointed none = none
unpointed (some content) =
    if trim_space content == "nameserver 127.0.0.1" then some fallback else some content

-- The last part of `cleanupPreviousRun`, before the pins are taken out. The backup is taken away also
-- where it could not be written back.
unfoldable pub clean_resolv_conf : Bool → Files → Files
clean_resolv_conf writes fs = elim (useful fs.backup) [
  | none ↦ record fs { resolv_conf = if writes then unpointed fs.resolv_conf else fs.resolv_conf }
  | some text ↦ record { resolv_conf = if writes then some text else fs.resolv_conf; backup = none }
]
