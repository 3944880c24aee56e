-- ===== src/Stubs/Egl/Queries.antt =====
-- The entry points of guest/shim/src/libEGL_stub.c that answer by constants. The values are those of
-- EGL/egl.h.
use vw_firmware_mac.Base.{ℕ, List, [], ◌∷◌, ◌++◌, Option, none, some}
use vw_firmware_mac.Base.{◌==◌, ◌&&◌, not, if◌then◌else◌}
use vw_firmware_mac.Stubs.Log.{
  uint, sint, addr, Line, line, number, text, Write, store, Reply, answers, unless_null,
  is_positive,
}
use vw_firmware_mac.Stubs.Names.{value_of}

unfoldable pub egl_initialize : ℕ → ℕ → ℕ → Reply
egl_initialize dpy major minor =
    answers
      (line "eglInitialize" (sint "dpy" dpy ∷ addr "major" major ∷ addr "minor" minor ∷ []) ∷ [])
      (number 1) (unless_null major (store major 0 1) ++ unless_null minor (store minor 0 4))

unfoldable pub egl_query_string : ℕ → ℕ → Reply
egl_query_string dpy name =
    answers (line "eglQueryString" (sint "dpy" dpy ∷ sint "name" name ∷ []) ∷ [])
      (text (
        if name == 0x3053
        then "StubEGL"
        else (if name == 0x3054 then "1.4 stub" else (if name == 0x308D then "OpenGL_ES" else ""))))
      []

-- The one configuration, to an array of `config_size` elements and its size.
unfoldable pub one_config : ℕ → ℕ → ℕ → List Write
one_config configs config_size num_config =
    (if not (configs == 0) && is_positive config_size then store configs 0 1 ∷ [] else [])
    ++ unless_null num_config (store num_config 0 1)

unfoldable pub egl_get_configs : ℕ → ℕ → ℕ → ℕ → Reply
egl_get_configs dpy configs config_size num_config =
    answers
      (line "eglGetConfigs" (
          sint "dpy" dpy
          ∷ addr "configs" configs
          ∷ sint "config_size" config_size
          ∷ addr "num_config" num_config
          ∷ [])
        ∷ [])
      (number 1) (one_config configs config_size num_config)

-- The lines for a list of attributes, up to `EGL_NONE`. `none` is a read past its end.
unfoldable pub attrib_lines : List ℕ → Option (List Line)
attrib_lines [] = none
attrib_lines (name ∷ []) = if name == 0x3038 then some [] else none
attrib_lines (name ∷ value ∷ more) =
    let rest = attrib_lines more in
    if name == 0x3038 then some [] else (elim rest [
      | none ↦ none
      | some lines ↦ some (line "  attrib" (uint "" name ∷ sint "" value ∷ []) ∷ lines)
    ])

-- `attribs` is what `attrib_list` points at, where it is not null.
unfoldable pub egl_choose_config : ℕ → ℕ → List ℕ → ℕ → ℕ → ℕ → Option Reply
egl_choose_config dpy attrib_list attribs configs config_size num_config =
    let first = line "eglChooseConfig" (
      sint "dpy" dpy
      ∷ addr "attrib_list" attrib_list
      ∷ addr "configs" configs
      ∷ sint "config_size" config_size
      ∷ addr "num_config" num_config
      ∷ []) in
    let listed = if attrib_list == 0 then some [] else attrib_lines attribs in
    elim listed [
      | none ↦ none
      | some lines ↦
          some (answers (first ∷ lines) (number 1) (one_config configs config_size num_config))
    ]

-- The cases of the `switch` in `eglGetConfigAttrib` that do not write 0.
abbrev pub config_attribs : List (ℕ × ℕ)
config_attribs =
    (0x3020, 32)
    ∷ (0x3024, 8)
    ∷ (0x3023, 8)
    ∷ (0x3022, 8)
    ∷ (0x3021, 8)
    ∷ (0x3025, 24)
    ∷ (0x3026, 8)
    ∷ (0x3028, 1)
    ∷ (0x3033, 5)
    ∷ (0x3040, 4)
    ∷ (0x3042, 4)
    ∷ (0x302D, 1)
    ∷ (0x302C, 4096)
    ∷ (0x302A, 4096)
    ∷ (0x303F, 0x308E)
    ∷ (0x3034, 0x3038)
    ∷ []

unfoldable pub egl_get_config_attrib : ℕ → ℕ → ℕ → ℕ → Reply
egl_get_config_attrib dpy config attribute value =
    answers
      (line "eglGetConfigAttrib" (
          sint "dpy" dpy
          ∷ sint "config" config
          ∷ sint "attribute" attribute
          ∷ addr "value" value
          ∷ [])
        ∷ [])
      (number 1) (store value 0 (value_of attribute config_attribs) ∷ [])

unfoldable pub egl_query_surface : ℕ → ℕ → ℕ → ℕ → Reply
egl_query_surface dpy surface attribute value =
    answers
      (line "eglQuerySurface" (
          sint "dpy" dpy
          ∷ sint "surface" surface
          ∷ sint "attribute" attribute
          ∷ addr "value" value
          ∷ [])
        ∷ [])
      (number 1)
      (store value 0 (value_of attribute ((0x3057, 800) ∷ (0x3056, 480) ∷ (0x3028, 1) ∷ [])) ∷ [])

unfoldable pub egl_query_context : ℕ → ℕ → ℕ → ℕ → Reply
egl_query_context dpy ctx attribute value =
    answers
      (line "eglQueryContext"
          (sint "dpy" dpy ∷ sint "ctx" ctx ∷ sint "attribute" attribute ∷ addr "value" value ∷ [])
        ∷ [])
      (number 1)
      (store value 0 (
          value_of attribute ((0x3028, 1) ∷ (0x3097, 0x30A0) ∷ (0x3098, 2) ∷ (0x3086, 0x3084) ∷ []))
        ∷ [])
