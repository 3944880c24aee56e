-- ===== src/Stubs/Tests.antt =====
-- The logging libraries of the guest at concrete inputs.
use vw_firmware_mac.Base.{
  ◌+◌, ◌≡◌, refl, List, [], ◌∷◌, some, arith, get_elem?, ◌==◌, if◌then◌else◌, none,
}
use vw_firmware_mac.Stubs.Log.{line, uint, sint}
use vw_firmware_mac.Stubs.Names.{GlStub, gl_start, source_lines, source_length, names}
use vw_firmware_mac.Stubs.Gles.{GlEntry, gl_run, textures_entry, buffers_entry}
use vw_firmware_mac.Stubs.Gles.Textures.{gen_textures}
use vw_firmware_mac.Stubs.Gles.Buffers.{gen_buffers, stub_bind_buffer}
use vw_firmware_mac.Stubs.Gles.Attributes.{stub_vertex_attrib_pointer}
use vw_firmware_mac.Stubs.Gles.Effect.{
  texture, next_of, upto, effect, index, texture_effect, buffer_effect,
}
use vw_firmware_mac.Stubs.Gles.Given.{asked, names_of, names_of-run, count_of}
use vw_firmware_mac.Stubs.Gles.Binding.{logs-bound, is_bind}
use vw_firmware_mac.Stubs.Egl.{
  EglCall, create_window_surface, create_pbuffer_surface, create_context, egl_start, surfaces, Egl,
  egl_reply, egl_create_window_surface, egl_make_current, egl_get_current_context,
  egl_get_current_surface, handle,
}
use vw_firmware_mac.Stubs.Egl.Queries.{attrib_lines, egl_choose_config}
use vw_firmware_mac.Stubs.Egl.Surfaces.{Distinct, surfaces-Distinct}
use vw_firmware_mac.Stubs.Egl.Current.{current-make_current, leaves_current, entry_leaves}
use vw_firmware_mac.Stubs.Egl.Entries.{
  EglEntry, changes, destroy_surface, destroy_context, choose_config, release_thread, terminate,
  entry_run, entry_reply,
}

-- Two textures, a buffer, and one texture more.
abbrev session : List GlEntry
session =
    textures_entry (gen_textures 2 500)
    ∷ buffers_entry (gen_buffers 1 600)
    ∷ textures_entry (gen_textures 1 700)
    ∷ []

names_of-run_example :
    (names_of texture session gl_start ≡ upto (next_of texture gl_start) (asked texture session))
    × (next_of texture (gl_run session gl_start) ≡ next_of texture gl_start + asked texture session)
unfolding next_of gl_start asked count_of effect index texture_effect buffer_effect
    vw_firmware_mac.Stubs.Names.rounds
names_of-run_example = names_of-run texture session gl_start (omega arith)

logs-bound_example :
    get_elem?
      (stub_vertex_attrib_pointer 3 4 0x1406 0 0 0
        (gl_run session (stub_bind_buffer 0x8892 7 gl_start).1)).0.lines
      1
    ≡ some (line "  attrib" (uint "" 3 ∷ uint "bound array buffer" 7 ∷ []))
unfolding is_bind effect texture_effect buffer_effect
logs-bound_example = logs-bound gl_start session 7 3 4 0x1406 0 0 0 (refl, (refl, (refl, tt)))

-- A list of attributes up to `EGL_NONE`, and one that does not end.
attribs_end :
    attrib_lines (0x3024 ∷ 8 ∷ 0x3038 ∷ [])
    ≡ some (line "  attrib" (uint "" 0x3024 ∷ sint "" 8 ∷ []) ∷ [])
unfolding attrib_lines
attribs_end = refl

attribs_open : attrib_lines (0x3024 ∷ 8 ∷ []) ≡ none
unfolding attrib_lines
attribs_open = refl

abbrev calls : List EglCall
calls =
    create_window_surface 1 1 5 0
    ∷ create_pbuffer_surface 1 1 0
    ∷ create_context 1 1 0 0
    ∷ create_window_surface 1 1 6 0
    ∷ []

surfaces-Distinct_example : Distinct (surfaces calls egl_start)
surfaces-Distinct_example = surfaces-Distinct calls (omega arith)

-- The same calls, and others that would end a current context elsewhere.
abbrev entries : List EglEntry
entries =
    changes (create_window_surface 1 1 5 0)
    ∷ destroy_surface 1 0x100
    ∷ destroy_context 1 0x400
    ∷ choose_config 1 7 (0x3038 ∷ []) 0 0 9
    ∷ release_thread
    ∷ terminate 1
    ∷ []

abbrev after : Egl
after = record {
  cur_ctx = 0x400;
  cur_draw = 0x100;
  cur_read = 0x200;
  windows = 0x101;
  pbuffers = 0x200;
  pixmaps = 0x300;
  contexts = 0x400;
}

current-make_current_example :
    (handle (egl_get_current_context after) ≡ 0x400)
    × (handle (egl_get_current_surface 0x3059 after) ≡ (if 0x3059 == 0x3059 then 0x100 else 0x200))
unfolding leaves_current entry_leaves entry_run entry_reply egl_reply egl_create_window_surface
    egl_make_current egl_choose_config attrib_lines egl_start
current-make_current_example =
    current-make_current egl_start after entries 1 0x100 0x200 0x400 0x3059
      (refl, (refl, (refl, (refl, (refl, (refl, tt)))))) refl
