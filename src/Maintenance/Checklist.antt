-- ===== src/Maintenance/Checklist.antt =====
-- src/mantenimiento/daily-checklists/daily-checklist-rules.ts: the rules by which a daily checklist
-- may be sent. Ids are only compared, so they are numbers; a text is the list of its UTF-16 units; a
-- problem carries what its message names.
pub mod Laws
pub mod Sending
use smi_backend.Prelude.{
  ℕ, ◌+◌, String, Bool, true, false, not, ◌&&◌, Option, none, some, List, [], ◌∷◌, ◌++◌, map, ◌==◌,
  ltb, if◌then◌else◌, or_default, is_some, length, filter, includes, or_else,
}
use smi_backend.Prelude.Int.{ℤ}
use smi_backend.Concurrency.Expected.{trim}

pub data EntryStatus : Type 0 where
  maintained checked not_checked : EntryStatus

pub record RuleItem : Type 0 where
  pub id : ℕ
  pub name : String
  pub requires_photo : Bool
  pub requires_temperature : Bool

pub record RuleEntry : Type 0 where
  pub item_id : ℕ
  pub status : EntryStatus
  pub description : Option (List ℕ)
  pub temperature : Option ℤ
  pub photo_count : ℕ
  pub supply_count : ℕ

pub record ChecklistTally : Type 0 where
  pub declared : ℕ
  pub maintained : ℕ
  pub photos : ℕ

pub data Problem : Type 0 where
  not_in_catalog nothing_declared : Problem
  twice undescribed misplaced_supplies without_temperature : String → Problem
  missing_photos : List String → Problem
  missing_items : List String → Problem

abbrev pub is_declared : EntryStatus → Bool
is_declared not_checked = false
is_declared _ = true

abbrev pub is_maintained : EntryStatus → Bool
is_maintained maintained = true
is_maintained _ = false

abbrev pub sum_photos : List RuleEntry → ℕ
sum_photos [] = 0
sum_photos (e ∷ es) = e.photo_count + sum_photos es

-- `tally`
unfoldable pub tally : List RuleEntry → ChecklistTally
tally entries = record {
  declared = length (filter (λ e. is_declared e.status) entries);
  maintained = length (filter (λ e. is_maintained e.status) entries);
  photos = sum_photos entries;
}

-- `needsPhoto`
abbrev pub needs_photo : RuleItem → EntryStatus → Bool
needs_photo item status = item.requires_photo && is_maintained status

-- `porItem.get`: of two items with one id, the map keeps the later one.
abbrev pub item_of : List RuleItem → ℕ → Option RuleItem
item_of [] id = none
item_of (i ∷ catalog) id = or_else (item_of catalog id) (if i.id == id then some i else none)

-- `if (test) problemas.push(problem)`
abbrev pub report : Bool → Problem → List Problem
report test problem = if test then problem ∷ [] else []

abbrev pub undescribed_in : RuleEntry → Bool
undescribed_in e = is_maintained e.status && ltb (length (trim (or_default e.description []))) 3

abbrev pub supplies_misplaced : RuleEntry → Bool
supplies_misplaced e = not (is_maintained e.status) && ltb 0 e.supply_count

abbrev pub photo_missing : RuleItem → RuleEntry → Bool
photo_missing item e = needs_photo item e.status && (e.photo_count == 0)

abbrev pub temperature_missing : RuleItem → RuleEntry → Bool
temperature_missing item e =
    is_declared e.status && (item.requires_temperature && not (is_some e.temperature))

-- What one entry of a known item adds to `problemas`.
abbrev pub entry_problems : RuleItem → RuleEntry → List Problem
entry_problems item e =
    report (undescribed_in e) (undescribed item.name)
    ++ report (supplies_misplaced e) (misplaced_supplies item.name)
    ++ report (temperature_missing item e) (without_temperature item.name)

-- What the loop keeps: `problemas`, `vistos` and `sinFoto`.
pub record Scan : Type 0 where
  pub problemas : List Problem
  pub vistos : List ℕ
  pub sin_foto : List String

-- The rest of the loop's body, for an item that the catalog has and that was not seen.
abbrev pub scan_known : RuleItem → RuleEntry → Scan → Scan
scan_known item e s = record {
  problemas = s.problemas ++ entry_problems item e;
  vistos = e.item_id ∷ s.vistos;
  sin_foto = s.sin_foto ++ (if photo_missing item e then item.name ∷ [] else []);
}

abbrev pub scan_item : Option RuleItem → RuleEntry → Scan → Scan
scan_item none e s = record s { problemas = s.problemas ++ not_in_catalog ∷ [] }
scan_item (some item) e s =
    if includes s.vistos e.item_id
    then record s { problemas = s.problemas ++ twice item.name ∷ [] }
    else scan_known item e s

-- The loop over the entries.
abbrev pub scan : List RuleItem → List RuleEntry → Scan → Scan
scan catalog [] s = s
scan catalog (e ∷ es) s = scan catalog es (scan_item (item_of catalog e.item_id) e s)

abbrev pub names : List RuleItem → List String
names = map (λ (i : RuleItem). i.name)

abbrev pub photo_problems : List String → List Problem
photo_problems [] = []
photo_problems (n ∷ ns) = missing_photos (n ∷ ns) ∷ []

abbrev pub item_problems : List RuleItem → List Problem
item_problems [] = []
item_problems (i ∷ is) = missing_items (names (i ∷ is)) ∷ []

-- What is added after the loop.
abbrev pub closing_problems : List RuleItem → List RuleEntry → Scan → List Problem
closing_problems catalog entries s =
    photo_problems s.sin_foto
    ++ (item_problems (filter (λ i. not (includes s.vistos i.id)) catalog)
        ++ report ((tally entries).declared == 0) nothing_declared)

abbrev pub no_scan : Scan
no_scan = record { problemas = []; vistos = []; sin_foto = [] }

-- `checklistProblems`
unfoldable pub checklist_problems : List RuleItem → List RuleEntry → List Problem
checklist_problems catalog entries =
    (scan catalog entries no_scan).problemas
    ++ closing_problems catalog entries (scan catalog entries no_scan)
