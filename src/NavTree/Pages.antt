-- ===== src/NavTree/Pages.antt =====
-- The pages of docs/documentation/html/ that the generated index and the generated tree have most places on.
use com_client.Base.{Text, codes}

abbrev pub c_id : Text
c_id = codes "d1/d3a/_c_make_c_compiler_id_8c.html"

abbrev pub info : Text
info = codes "d1/d6a/classlsl_1_1stream__info.html"

abbrev pub lsl_cpp : Text
lsl_cpp = codes "d1/d7c/lsl__cpp_8h.html"

abbrev pub esc : Text
esc = codes "d2/d52/namespace_e_s_c.html"

abbrev pub cxx_id : Text
cxx_id = codes "d3/d66/_c_make_c_x_x_compiler_id_8cpp.html"

abbrev pub lsl : Text
lsl = codes "d3/db0/namespacelsl.html"

abbrev pub resolver : Text
resolver = codes "d4/d27/classlsl_1_1continuous__resolver.html"

abbrev pub readme_lsl : Text
readme_lsl =
    codes
      "d5/d45/md__home_aightech_dev_kistler__d_a_q_lib_com_client_tool_lib_built_lsl__r_e_a_d_m_e.html"

abbrev pub outlet : Text
outlet = codes "d6/d55/classlsl_1_1stream__outlet.html"

abbrev pub inlet : Text
inlet = codes "d6/dbd/classlsl_1_1stream__inlet.html"

abbrev pub http : Text
http = codes "d7/d60/class_communication_1_1_h_t_t_p__client.html"

abbrev pub readme_iseq : Text
readme_iseq =
    codes
      "d8/de6/md__home_aightech_dev_kistler__d_a_q_lib_com_client_lib_str_a_n_s_iseq__r_e_a_d_m_e.html"

abbrev pub xml : Text
xml = codes "d9/d90/classlsl_1_1xml__element.html"

abbrev pub lsl_c : Text
lsl_c = codes "db/df3/lsl__c_8h.html"

abbrev pub cli : Text
cli = codes "dc/d44/class_e_s_c_1_1_c_l_i.html"

abbrev pub server : Text
server = codes "dc/db1/class_communication_1_1_server.html"

abbrev pub iseq_cpp : Text
iseq_cpp = codes "dd/d40/str_a_n_s_iseq_8cpp.html"

abbrev pub client : Text
client = codes "df/dcd/class_communication_1_1_client.html"

abbrev pub iseq_hpp : Text
iseq_hpp = codes "df/df2/str_a_n_s_iseq_8hpp.html"
