-- ===== src/Miniapp/OrderList.antt =====
-- The list of the user's orders, miniapp/pages/order-list/index.js, as a state machine: what the
-- user does, and what the calls that are under way come back with, in any order.
pub mod Laws
use jtfp_cloudrun.Base.{
  ℕ, zero, suc, ◌+◌, leb, String, Bool, true, false, Option, none, some, List, [], ◌∷◌, ◌++◌, map,
  length, if◌then◌else◌, str_eq,
}
use jtfp_cloudrun.Js.{str}
use jtfp_cloudrun.Js.Objects.{Row, get, put}
use jtfp_cloudrun.Miniapp.Url.{normalize_image_url}

-- A call of loadOrders: it waits for the login, or has asked for a page. It replaces the orders, or
-- appends to them.
pub data Call : Type 0 where
  waits : Bool → Call
  asked : Bool → ℕ → Call

-- The page's data, and the calls under way, oldest first. The size of a page is 10.
pub record View : Type 0 where
  pub loading : Bool
  pub error : Option String
  pub orders : List Row
  pub page : ℕ
  pub total : ℕ
  pub calls : List Call

abbrev pub start : View
start = record { loading = true; error = none; orders = []; page = 1; total = 0; calls = [] }

abbrev pub call_at {ℓ} : {A : Type ℓ} → ℕ → List A → Option A
call_at i [] = none
call_at zero (c ∷ cs) = some c
call_at (suc i) (c ∷ cs) = call_at i cs

-- The calls without the one at a place, and with another in its place.
abbrev pub without {ℓ} : {A : Type ℓ} → ℕ → List A → List A
without i [] = []
without zero (c ∷ cs) = cs
without (suc i) (c ∷ cs) = c ∷ without i cs

abbrev pub replaced : ℕ → Call → List Call → List Call
replaced i d [] = []
replaced zero d (c ∷ cs) = d ∷ cs
replaced (suc i) d (c ∷ cs) = c ∷ replaced i d cs

-- loadOrders, up to its first await
abbrev pub load_orders : Bool → View → View
load_orders is_replace v = record v {
  loading = true;
  error = none;
  calls = v.calls ++ waits is_replace ∷ [];
}

-- reload
unfoldable pub reload : View → View
reload v = load_orders true (record v { page = 1; orders = [] })

-- The call has logged in, and asks for the page that the data has now.
abbrev pub send_call : Option Call → ℕ → View → View
send_call (some (waits r)) i v = record v { calls = replaced i (asked r v.page) v.calls }
send_call _ i v = v

-- e.message || '加载失败', of an error's message
abbrev pub fail_call : Option Call → ℕ → String → View → View
fail_call none i message v = v
fail_call (some c) i message v = record v {
  loading = false;
  error = some (if str_eq message "" then "加载失败" else message);
  calls = without i v.calls;
}

-- onReachBottom
unfoldable pub reach_bottom : View → View
reach_bottom v =
    if v.loading
    then v
    else if leb v.total (length v.orders)
    then v
    else load_orders false (record v { page = v.page + 1 })

module _ (trim : String → String) where
  -- { ...o, cover_url: normalizeImageUrl(o.cover_url) }
  abbrev pub normalized : Row → Row
  normalized o = put "cover_url" (str (normalize_image_url trim (get "cover_url" o))) o

  abbrev pub receive_call : Option Call → ℕ → List Row → ℕ → View → View
  receive_call (some (asked r p)) i rs total v = record v {
    orders = if r then map normalized rs else v.orders ++ map normalized rs;
    total = total;
    loading = false;
    calls = without i v.calls;
  }
  receive_call _ i rs total v = v

  -- What happens: the page is shown or pulled down, its end is reached, or a call at a place
  -- goes on.
  pub data Event : Type 0 where
    shows : Event
    reaches_bottom : Event
    logs_in : ℕ → Event
    answers : ℕ → List Row → ℕ → Event
    fails : ℕ → String → Event

  unfoldable pub step : Event → View → View
  step shows v = reload v
  step reaches_bottom v = reach_bottom v
  step (logs_in i) v = send_call (call_at i v.calls) i v
  step (answers i rs total) v = receive_call (call_at i v.calls) i rs total v
  step (fails i message) v = fail_call (call_at i v.calls) i message v

  abbrev pub run : List Event → View → View
  run [] v = v
  run (e ∷ es) v = run es (step e v)
