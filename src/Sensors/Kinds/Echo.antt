-- ===== src/Sensors/Kinds/Echo.antt =====
-- What the getters of a sensor read of an entry that a setter wrote.
use hueplusplus.Base.{
  ◌∷◌, ◌≡◌, refl, ap, ◌∙◌, true, Bool, Bytes, codes, bytes_eq, Option, some, Result, ok, ◌>>=◌,
}
use hueplusplus.Base.Int.{ℤ}
use hueplusplus.Json.{JsonLib, ObjectLaws, TextLaws, ScalarLaws, at_key, or_throw}
use hueplusplus.Commands.{Line}
use hueplusplus.Lights.{Site}
use hueplusplus.Devices.{send_put_request}
use hueplusplus.Sensors.{Alert, alert_to_string, alert_from_string}
use hueplusplus.Sensors.Settings.{at_key-set, own_alert}
use hueplusplus.Sensors.Kinds.{get_in, put_in, dropped}
use hueplusplus.Sensors.Kinds.Clip
use hueplusplus.Sensors.Kinds.Zgp
use hueplusplus.Sensors.Kinds.Switch
use hueplusplus.Sensors.Kinds.Presence
use hueplusplus.Sensors.Kinds.Temperature
use hueplusplus.Sensors.Kinds.LightLevel

module _ (J : JsonLib) (S : Site J) (path : Bytes) where
  -- A setter sends a body to an entry, and the getter reads the value that was set of the body as that entry.
  abbrev pub Echoes {ℓ} :
      {A : Type ℓ} → Bytes → Result (Unit {0}) × Line → (J.Json → Result A) → A → Line → Type ℓ
  Echoes entry sent getter a line =
      (body : J.Json) × (sent ≡ dropped J (send_put_request J S path (b'/' ∷ entry) body line))
      × (getter (J.set J.object entry body) ≡ ok a)

  -- Of every setter of a CLIP sensor, at a Boolean, an integer or a text.
  abbrev pub ClipEchoes : Bool → ℤ → Bytes → Line → Type 0
  ClipEchoes b z s line =
      (Echoes (codes "config") (Clip.set_on J S path b line) (Clip.is_on J) b line)
      × (Echoes (codes "config") (Clip.set_battery_state J S path z line) (Clip.get_battery_state J)
          z line)
      × (Echoes (codes "config") (Clip.set_url J S path s line) (Clip.get_url J) s line)
      × (Echoes (codes "config") (Clip.set_dark_threshold J S path z line)
          (Clip.get_dark_threshold J) z line)
      × (Echoes (codes "config") (Clip.set_threshold_offset J S path z line)
          (Clip.get_threshold_offset J) z line)
      × (Echoes (codes "state") (Clip.set_button_event J S path z line) (Clip.get_button_event J) z
          line)
      × (Echoes (codes "state") (Clip.set_open J S path b line) (Clip.is_open J) b line)
      × (Echoes (codes "state") (Clip.set_presence J S path b line) (Clip.get_presence J) b line)
      × (Echoes (codes "state") (Clip.set_temperature J S path z line) (Clip.get_temperature J) z
          line)
      × (Echoes (codes "state") (Clip.set_humidity J S path z line) (Clip.get_humidity J) z line)
      × (Echoes (codes "state") (Clip.set_light_level J S path z line) (Clip.get_light_level J) z
          line)
      × (Echoes (codes "state") (Clip.set_flag J S path b line) (Clip.get_flag J) b line)
      × (Echoes (codes "state") (Clip.set_status J S path z line) (Clip.get_status J) z line)

  -- Of every setter of the ZLL and ZGP sensors.
  abbrev pub ZllEchoes : Bool → ℤ → Alert → Line → Type 0
  ZllEchoes b z a line =
      (Echoes (codes "config") (Zgp.set_on J S path b line) (Zgp.is_on J) b line)
      × (Echoes (codes "config") (Switch.set_on J S path b line) (Switch.is_on J) b line)
      × (Echoes (codes "config") (Presence.set_on J S path b line) (Presence.is_on J) b line)
      × (Echoes (codes "config") (Temperature.set_on J S path b line) (Temperature.is_on J) b line)
      × (Echoes (codes "config") (LightLevel.set_on J S path b line) (LightLevel.is_on J) b line)
      × (Echoes (codes "config") (Presence.set_sensitivity J S path z line)
          (Presence.get_sensitivity J) z line)
      × (Echoes (codes "config") (LightLevel.set_dark_threshold J S path z line)
          (LightLevel.get_dark_threshold J) z line)
      × (Echoes (codes "config") (LightLevel.set_threshold_offset J S path z line)
          (LightLevel.get_threshold_offset J) z line)
      × (Echoes (codes "config") (Switch.send_alert J S path a line) (Switch.get_last_alert J) a
          line)
      × (Echoes (codes "config") (Presence.send_alert J S path a line) (Presence.get_last_alert J) a
          line)
      × (Echoes (codes "config") (Temperature.send_alert J S path a line)
          (Temperature.get_last_alert J) a line)

  module _ (laws : ObjectLaws J) (texts : TextLaws J) (scalars : ScalarLaws J) where
    get_in-set :
        {A : Type 0} (entry key : Bytes) (to : J.Json → Option A) (v : J.Json) (a : A)
        → bytes_eq entry entry ≡ true
        → bytes_eq key key ≡ true
        → to v ≡ some a
        → get_in J entry to key (J.set J.object entry (J.set J.object key v)) ≡ ok a
    get_in-set entry key to v a same same_key converted =
        ap (λ r. r >>= λ e. at_key J e key >>= λ u. or_throw (to u))
          (at_key-set J laws texts scalars entry (J.set J.object key v) same)
        ∙ ap (λ r. r >>= λ u. or_throw (to u)) (at_key-set J laws texts scalars key v same_key)
        ∙ ap or_throw converted

    echo :
        {A : Type 0} (entry key : Bytes) (to : J.Json → Option A) (v : J.Json) (a : A) (line : Line)
        → bytes_eq entry entry ≡ true
        → bytes_eq key key ≡ true
        → to v ≡ some a
        → Echoes entry (put_in J S path entry key v line) (get_in J entry to key) a line
    echo entry key to v a line same same_key converted =
        (J.set J.object key v, refl, get_in-set entry key to v a same same_key converted)

    alert_echo :
        (a : Alert) (line : Line)
        → Echoes
            (codes "config")
            (Switch.send_alert J S path a line)
            (Switch.get_last_alert J)
            a
            line
    unfolding bytes_eq
    alert_echo a line = (
      J.set J.object (codes "alert") (J.of_text (alert_to_string a)),
      refl,
      ap (λ r. r >>= λ s. ok (alert_from_string s))
            (get_in-set (codes "config") (codes "alert") J.to_text _ (alert_to_string a) refl refl
              (texts.to_text-of_text (alert_to_string a)))
          ∙ ap ok (own_alert a),
    )

    -- Each setter of a CLIP sensor puts a body to the path of the state or of the configuration,
    -- and of that body as the sensor's state or configuration the getter reads what was set. The
    -- JSON library keeps the laws of objects, texts and scalars.
    pub clip-Echoes : (b : Bool) (z : ℤ) (s : Bytes) (line : Line) → ClipEchoes b z s line
    unfolding bytes_eq
    clip-Echoes b z s line = (
      echo _ _ J.to_bool _ b line refl refl (scalars.to_bool-of_bool b),
      echo _ _ J.to_int _ z line refl refl (scalars.to_int-of_int z),
      echo _ _ J.to_text _ s line refl refl (texts.to_text-of_text s),
      echo _ _ J.to_int _ z line refl refl (scalars.to_int-of_int z),
      echo _ _ J.to_int _ z line refl refl (scalars.to_int-of_int z),
      echo _ _ J.to_int _ z line refl refl (scalars.to_int-of_int z),
      echo _ _ J.to_bool _ b line refl refl (scalars.to_bool-of_bool b),
      echo _ _ J.to_bool _ b line refl refl (scalars.to_bool-of_bool b),
      echo _ _ J.to_int _ z line refl refl (scalars.to_int-of_int z),
      echo _ _ J.to_int _ z line refl refl (scalars.to_int-of_int z),
      echo _ _ J.to_int _ z line refl refl (scalars.to_int-of_int z),
      echo _ _ J.to_bool _ b line refl refl (scalars.to_bool-of_bool b),
      echo _ _ J.to_int _ z line refl refl (scalars.to_int-of_int z),
    )

    -- So do those of the ZLL and ZGP sensors.
    pub zll-Echoes : (b : Bool) (z : ℤ) (a : Alert) (line : Line) → ZllEchoes b z a line
    unfolding bytes_eq
    zll-Echoes b z a line = (
      echo _ _ J.to_bool _ b line refl refl (scalars.to_bool-of_bool b),
      echo _ _ J.to_bool _ b line refl refl (scalars.to_bool-of_bool b),
      echo _ _ J.to_bool _ b line refl refl (scalars.to_bool-of_bool b),
      echo _ _ J.to_bool _ b line refl refl (scalars.to_bool-of_bool b),
      echo _ _ J.to_bool _ b line refl refl (scalars.to_bool-of_bool b),
      echo _ _ J.to_int _ z line refl refl (scalars.to_int-of_int z),
      echo _ _ J.to_int _ z line refl refl (scalars.to_int-of_int z),
      echo _ _ J.to_int _ z line refl refl (scalars.to_int-of_int z),
      alert_echo a line,
      alert_echo a line,
      alert_echo a line,
    )
