-- ===== src/DataCap/Notify.antt =====
-- `processQuota` of desktop/datacap/datacap.go and the notifications that it starts. `ratio_above u a p`
-- stands for the comparison of `float64(u) / float64(a)` with p / 100, `translate` for `i18n.T`, and
-- `itoa` for `strconv.Itoa`. A quota is there: `processQuota` panics at one that is nil. A goroutine that
-- notifies runs to its end where it is started.
use Prim.Native.String.{◌++◌ as append}
use lantern_client.Prelude.{
  ℕ, String, Bool, true, false, ◌&&◌, Option, none, some, List, [], ◌∷◌, ◌++◌, map, ltb, leb,
  if◌then◌else◌,
}

pub record Quota : Type 0 where
  pub mib_used : ℕ
  pub mib_allowed : ℕ

pub record Notification : Type 0 where
  pub title : String
  pub message : String
  pub click_url : String
  pub icon_url : String

pub data Effect : Type 0 where
  out : Quota → Effect
  heard : ℕ → Bool → Effect
  shown : Notification → String → Effect

-- The three `sync.Once` of the package, true once they have run, and the listeners.
pub record Cap : Type 0 where
  pub one_fifty : Bool
  pub one_eighty : Bool
  pub one_full : Bool
  pub listeners : List ℕ
  pub effects : List Effect

-- What is outside: texts, and the status of the user if it is known.
pub record Desktop : Type 0 where
  pub translate : String → List String → String
  pub itoa : ℕ → String
  pub click_url : String
  pub icon_url : String
  pub app_name : String

unfoldable pub is_full : Quota → Bool
is_full q = ltb 0 q.mib_used && leb q.mib_allowed q.mib_used

unfoldable pub add_listener : ℕ → Cap → Cap
add_listener l s = record s { listeners = s.listeners ++ l ∷ [] }

abbrev pub emit : List Effect → Cap → Cap
emit es s = record s { effects = s.effects ++ es }

module _ (d : Desktop) where
  note : String → String → Notification
  note title message = record {
    title = title;
    message = message;
    click_url = d.click_url;
    icon_url = d.icon_url;
  }

  unfoldable pub notify_free_user : String → String → String → Option Bool → List Effect
  unfolding note
  notify_free_user title msg campaign none = []
  notify_free_user title msg campaign (some true) = []
  notify_free_user title msg campaign (some false) = shown (note title msg) campaign ∷ []

  percent_args : ℕ → List String
  percent_args percent = append (d.itoa percent) "%" ∷ d.translate d.app_name [] ∷ []

  unfoldable pub notify_percent : ℕ → Option Bool → List Effect
  unfolding percent_args
  notify_percent percent is_pro =
      notify_free_user (d.translate "BACKEND_DATA_PERCENT_TITLE" (percent_args percent))
        (d.translate "BACKEND_DATA_PERCENT_MESSAGE" (percent_args percent))
        (append "data-cap-" (d.itoa percent)) is_pro

  unfoldable pub notify_cap_hit : Option Bool → List Effect
  notify_cap_hit is_pro =
      notify_free_user (d.translate "BACKEND_DATA_TITLE" (d.translate d.app_name [] ∷ []))
        (d.translate "BACKEND_DATA_MESSAGE" (d.translate d.app_name [] ∷ [])) "data-cap-100" is_pro

  -- `oneFull.Do(...)` and so on: the function runs the first time only.
  unfoldable pub do_full : Option Bool → Bool → Cap → Cap
  do_full is_pro true s = s
  do_full is_pro false s = emit (notify_cap_hit is_pro) (record s { one_full = true })

  unfoldable pub do_eighty : Option Bool → Bool → Cap → Cap
  do_eighty is_pro true s = s
  do_eighty is_pro false s = emit (notify_percent 80 is_pro) (record s { one_eighty = true })

  unfoldable pub do_fifty : Option Bool → Bool → Cap → Cap
  do_fifty is_pro true s = s
  do_fifty is_pro false s = emit (notify_percent 50 is_pro) (record s { one_fifty = true })

  unfoldable pub notify_level : (ℕ → ℕ → ℕ → Bool) → Quota → Option Bool → Cap → Cap
  notify_level ratio_above q is_pro s =
      if is_full q
      then do_full is_pro s.one_full s
      else if ratio_above q.mib_used q.mib_allowed 80
      then do_eighty is_pro s.one_eighty s
      else if ratio_above q.mib_used q.mib_allowed 50
      then do_fifty is_pro s.one_fifty s
      else s

  -- `processQuota`: the quota goes out, the listeners hear whether it is full, and a level that is
  -- reached for the first time is notified.
  unfoldable pub process_quota : (ℕ → ℕ → ℕ → Bool) → Quota → Option Bool → Cap → Cap
  process_quota ratio_above q is_pro s =
      notify_level ratio_above q is_pro
        (emit (out q ∷ map (λ l. heard l (is_full q)) s.listeners) s)

  -- Calls of `processQuota`, one after another.
  unfoldable pub process_all : (ℕ → ℕ → ℕ → Bool) → List (Quota × Option Bool) → Cap → Cap
  process_all ratio_above [] s = s
  process_all ratio_above ((q, is_pro) ∷ qs) s =
      process_all ratio_above qs (process_quota ratio_above q is_pro s)

-- Before the first call: none of the three `sync.Once` is spent.
unfoldable pub start : List ℕ → Cap
start listeners = record {
  one_fifty = false;
  one_eighty = false;
  one_full = false;
  listeners = listeners;
  effects = [];
}
