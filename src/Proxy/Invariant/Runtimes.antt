-- ===== src/Proxy/Invariant/Runtimes.antt =====
-- Changes of one runtime that keep it consistent, and what they mean for the device table.
use ios_webkit_debug_proxy_r.Base.{
  ℕ, ◌≤◌, String, ◌≡◌, refl, sym, ap, subst, ◌∙◌, Option, none, some, List, [], ◌∷◌, arith, ◌==◌,
  string_eq, nat_eq, str_eq_iff, inl, inr, Bool-cases,
}
use ios_webkit_debug_proxy_r.Base.Dict.{HashMap, IsUniq, values}
use ios_webkit_debug_proxy_r.Base.Dict
use ios_webkit_debug_proxy_r.Base.Dict.Laws.{
  get-modify, IsUniq-modify, TestsKey, find-values-eq-get, modify_first-eq-modify,
}
use ios_webkit_debug_proxy_r.Proxy.State.{PageInfo, DeviceRuntime, World, Effect}
use ios_webkit_debug_proxy_r.Proxy.Pages.{to_entry}
use ios_webkit_debug_proxy_r.Proxy.Pages.Table.{SamePage, Shrinks-IsTable, Shrinks-modify}
use ios_webkit_debug_proxy_r.Proxy.Pages.Sync.{forget, entries-modify_first}
use ios_webkit_debug_proxy_r.Proxy.Devices.{device_info, is_shown}
use ios_webkit_debug_proxy_r.Proxy.Sockets.{set_runtime, has_number, find_page, update_page}
use ios_webkit_debug_proxy_r.Proxy.Messages.{table}
use ios_webkit_debug_proxy_r.Proxy.Invariant.{IsRuntime, IsWorld, shown}

-- Two runtimes that the device table shows alike.
pub record SameDevice (r r' : DeviceRuntime) : Type 0 where
  pub info : device_info r' ≡ device_info r
  pub is_shown_eq : is_shown r' ≡ is_shown r
  pub device_id : r'.device_id ≡ r.device_id
  pub port : r'.port ≡ r.port

shown-modify :
    (devices : HashMap String DeviceRuntime) (id : String) (r r' : DeviceRuntime)
    → SameDevice r r'
    → Dict.get devices id ≡ some r
    → shown (Dict.modify devices id (λ _. r')) ≡ shown devices
unfolding Dict.get Dict.modify
shown-modify [] id r r' same got = refl
shown-modify ((k, x) ∷ devices) id r r' same got = elim (Bool-cases (k == id)) [
  | inl hit ↦
      let here : x ≡ r = ground (arith, got) in
      rw hit (rw same.is_shown_eq (rw here (ground (arith, same.info))))
  | inr miss ↦ rw miss (ground (arith, got, shown-modify devices id r r' same))
]

IsRuntime-mono : {n : ℕ} (m : ℕ) (r : DeviceRuntime) → n ≤ m → IsRuntime n r → IsRuntime m r
IsRuntime-mono m r h v = record {
  is_table = v.is_table;
  bound = omega (arith, v.bound);
  shared_connected = v.shared_connected;
  shared_pages = v.shared_pages;
  attached = v.attached;
  clients = v.clients;
}

-- A runtime with the device and the port of another, and consistent.
pub record Follows (m : ℕ) (r r' : DeviceRuntime) : Type 0 where
  pub device_id : r'.device_id ≡ r.device_id
  pub port : r'.port ≡ r.port
  pub runtime : IsRuntime m r'

-- A world whose devices all follow devices of a consistent one.
pub IsWorld-Follows :
    {n : ℕ} (m : ℕ) (w w' : World)
    → IsWorld n w
    → IsUniq w'.devices
    → ((id : String) (r' : DeviceRuntime)
        → Dict.get w'.devices id ≡ some r'
        → (r : DeviceRuntime) × (Dict.get w.devices id ≡ some r) × Follows m r r')
    → w'.device_list ≡ shown w'.devices
    → IsWorld m w'
IsWorld-Follows m w w' v uniq follows listed = record {
  uniq = uniq;
  keyed = λ id r' got. let (r, found, f) = follows id r' got in f.device_id ∙ v.keyed id r found;
  runtime = λ id r' got. let (r, found, f) = follows id r' got in f.runtime;
  ports = λ id id' r' q' got got' e.
      let (r, found, f) = follows id r' got in
      let (q, found', f') = follows id' q' got' in
      v.ports id id' r q found found' (sym f.port ∙ e ∙ f'.port);
  listed = listed;
}

pub Follows-set :
    {n : ℕ} (m : ℕ) (w : World) (id : String) (r r' : DeviceRuntime)
    → n ≤ m
    → IsWorld n w
    → Dict.get w.devices id ≡ some r
    → Follows m r r'
    → (j : String) (q' : DeviceRuntime) → Dict.get (Dict.modify w.devices id (λ _. r')) j ≡ some q'
    → (q : DeviceRuntime) × (Dict.get w.devices j ≡ some q) × Follows m q q'
Follows-set m w id r r' h v got f j q' found = elim (Bool-cases (id == j)) [
  | inl hit ↦
      let same : id ≡ j = (str_eq_iff id j).0 hit in
      let here : Dict.get w.devices j ≡ some r = ap (Dict.get w.devices) (sym same) ∙ got in
      let written : r' ≡ q' = ground (arith, get-modify w.devices id j (λ _. r'), here) in
      (r, here, subst (Follows m r) written f)
  | inr miss ↦
      let kept : Dict.get w.devices j ≡ some q' =
        ground (arith, get-modify w.devices id j (λ _. r')) in
      (
        q',
        kept,
        record {
          device_id = refl;
          port = refl;
          runtime = IsRuntime-mono m q' h (v.runtime j q' kept);
        },
      )
]

-- A runtime replaced by a consistent one of the same device.
pub set_runtime-IsWorld :
    {n : ℕ} (m : ℕ) (w : World) (id : String) (r r' : DeviceRuntime)
    → n ≤ m
    → IsWorld n w
    → Dict.get w.devices id ≡ some r
    → SameDevice r r'
    → IsRuntime m r'
    → IsWorld m (set_runtime w id r')
set_runtime-IsWorld m w id r r' h v got same v' =
    IsWorld-Follows m w (set_runtime w id r') v (IsUniq-modify w.devices id (λ _. r') v.uniq)
      (Follows-set m w id r r' h v got
        (record { device_id = same.device_id; port = same.port; runtime = v' }))
      (v.listed ∙ sym (shown-modify w.devices id r r' same got))

pub IsWorld-mono : {n : ℕ} (m : ℕ) (w : World) → n ≤ m → IsWorld n w → IsWorld m w
IsWorld-mono m w h v = record {
  uniq = v.uniq;
  keyed = v.keyed;
  runtime = λ id r got. IsRuntime-mono m r h (v.runtime id r got);
  ports = v.ports;
  listed = v.listed;
}

-- What is only logged changes nothing.
pub effects-IsWorld :
    {n : ℕ} (w : World) (effects : List Effect)
    → IsWorld n w
    → IsWorld n (record w { effects = effects })
effects-IsWorld w effects v = record {
  uniq = v.uniq;
  keyed = v.keyed;
  runtime = v.runtime;
  ports = v.ports;
  listed = v.listed;
}

module _ {n : ℕ} (r : DeviceRuntime) (v : IsRuntime n r) (page_num : ℕ) where
  has_number-TestsKey : TestsKey (has_number page_num) page_num r.pages
  has_number-TestsKey k q got = let (num, _, _) = v.is_table.numbered k q got in ground (arith, num)

  -- A page is found by its number.
  pub find_page-get : find_page page_num r.pages ≡ Dict.get r.pages page_num
  find_page-get =
      find-values-eq-get (has_number page_num) page_num r.pages v.is_table.uniq has_number-TestsKey

  pub update_page-eq :
      (f : PageInfo → PageInfo)
      → Dict.modify_first r.pages (has_number page_num) f ≡ Dict.modify r.pages page_num f
  update_page-eq f =
      modify_first-eq-modify (has_number page_num) page_num r.pages f v.is_table.uniq
        has_number-TestsKey

  -- A client that comes or goes leaves the runtime consistent.
  pub update_page-IsRuntime :
      (f : PageInfo → PageInfo)
      → ((q : PageInfo) → SamePage q (f q))
      → ((q : PageInfo) → forget (to_entry (f q)) ≡ forget (to_entry q))
      → ((q : PageInfo) → (f q).sender_id ≡ (f q).ws_client_id)
      → IsRuntime n (update_page page_num f r)
  update_page-IsRuntime f same unseen agree = record {
    is_table = rw (update_page-eq f) (
        Shrinks-IsTable {t = table r} _ v.is_table
          (IsUniq-modify r.pages page_num f v.is_table.uniq)
          (Shrinks-modify r.pages page_num f same));
    bound = v.bound;
    shared_connected = v.shared_connected;
    shared_pages =
        v.shared_pages ∙ sym (entries-modify_first (has_number page_num) f r.pages unseen);
    attached = λ k q got.
        attached_at k q (ap (λ m. Dict.get m k) (sym (update_page-eq f)) ∙ got) (Dict.get r.pages k)
          refl;
    clients = v.clients;
  }
    where
      attached_at :
          (k : ℕ) (q : PageInfo)
          → Dict.get (Dict.modify r.pages page_num f) k ≡ some q
          → (o : Option PageInfo) → Dict.get r.pages k ≡ o
          → q.sender_id ≡ q.ws_client_id
      attached_at k q got none e = absurd (ground (arith, get-modify r.pages page_num k f))
      attached_at k q got (some x) e =
          ground (arith, get-modify r.pages page_num k f, agree x, v.attached k x e)
