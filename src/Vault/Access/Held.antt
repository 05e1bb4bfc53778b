-- ===== src/Vault/Access/Held.antt =====
-- A monitor of the calls that concern one vault: what the program holds, as far as the answers to
-- its own calls tell. Of a subprocess whose result the code does not read, a clean-up, it is taken
-- that it releases what it is asked to release; of any other its exit status tells.
use lukscrypt.Prelude.{
  ℕ, ◌+◌, Text, Bool, true, false, Option, none, some, ◌||◌, ◌&&◌, not, text_beq,
}
use lukscrypt.Prelude.{if◌then◌else◌}
use lukscrypt.Sys.{Call, Answer, Bound, unread, ok, err}
use lukscrypt.Sys.Argv.{Command}
use lukscrypt.Vault.Mounts.{mounted_in}

pub record Held : Type 0 where
  -- the device is open; it is mounted; the image may exist; a record names it
  pub device : Bool
  pub mounted : Bool
  pub image : Bool
  pub recorded : Bool
  -- the last look found no image at the path
  pub absent : Bool
  -- a device was closed while mounted; an image was changed that the last look had not found absent
  pub early_close : Bool
  pub clobbered : Bool
  -- the terminal events that got into the channel, and those that were given up
  pub terminals : ℕ
  pub given_up : ℕ

abbrev pub nothing : Held
nothing = record {
  device = false;
  mounted = false;
  image = false;
  recorded = false;
  absent = false;
  early_close = false;
  clobbered = false;
  terminals = 0;
  given_up = 0;
}

abbrev pub succeeded : Option Text → Bool
succeeded none = true
succeeded (some e) = false

abbrev pub is_unread : Bound → Bool
is_unread unread = true
is_unread _ = false

module _ (img mapper dir : Text) where
  abbrev touch : Text → Held → Held
  touch p h =
      let same = text_beq p img in
      record h { image = same || h.image; clobbered = h.clobbered || (same && not h.absent) }

  abbrev pub after_exec : Bound → Command → Option Text → Held → Held
  after_exec b (Command.luks_open k i m) e h = record h {
    device = (succeeded e && text_beq m mapper) || h.device;
  }
  after_exec b (Command.luks_close m) e h =
      let released = (is_unread b || succeeded e) && text_beq m mapper in
      record h {
        device = not released && h.device;
        early_close = h.early_close || (released && h.mounted);
      }
  after_exec b (Command.mount d p) e h = record h {
    mounted = (succeeded e && text_beq p dir) || h.mounted;
  }
  after_exec b (Command.umount p) e h =
      let released = (is_unread b || succeeded e) && text_beq p dir in
      record h { mounted = not released && h.mounted }
  after_exec b (Command.luks_format i) e h = touch i h
  after_exec b (Command.fallocate n i) e h = touch i h
  after_exec b _ e h = h

  abbrev pub next : (c : Call) → Answer c → Held → Held
  next (Call.exec b c s) r h = after_exec b c r.failed h
  next (Call.watch (Command.dd_create i n)) r h = touch i h
  next (Call.stat p) r h = record h {
    absent = if text_beq p img then elim r [ ok _ ↦ false | err _ ↦ true ] else h.absent;
  }
  next Call.read_mounts r h = record h { mounted = mounted_in dir r }
  next (Call.remove p) r h =
      let same = text_beq p img in
      record h { image = not same && h.image; clobbered = h.clobbered || (same && not h.absent) }
  next (Call.send_terminal e) r h = record h {
    terminals = if r then h.terminals + 1 else h.terminals;
    given_up = if r then h.given_up else h.given_up + 1;
  }
  next (Call.insert_vault n p g m d) r h = record h {
    recorded = elim r [ ok _ ↦ true | err _ ↦ h.recorded ];
  }
  next _ r h = h
