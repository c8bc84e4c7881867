-- ===== src/Plugins/Sites/Music.antt =====
-- The plugins of haarp/plugins for sites of music.
use haarpcache.Base.{not, ◌&&◌, ◌||◌}
use haarpcache.Text.{codes}
use haarpcache.Plugins.{Site, has}

abbrev pub bomusica_biz : Site
bomusica_biz = record {
  test = λ url. has (codes "bomusica.biz") url;
  domain = codes "bomusica.biz";
}

abbrev pub bomusica_info : Site
bomusica_info = record {
  test = λ url. has (codes "bomusica.info") url;
  domain = codes "bomusica.info";
}

abbrev pub bomusicas_com : Site
bomusicas_com = record {
  test = λ url. has (codes "bomusicas.com") url;
  domain = codes "bomusicas.com";
}

abbrev pub bullafina_biz : Site
bullafina_biz = record {
  test = λ url. has (codes "bullafina.biz") url;
  domain = codes "bullafina.biz";
}

abbrev pub bullafina_me : Site
bullafina_me = record {
  test = λ url. has (codes "bullafina.me") url;
  domain = codes "bullafina.me";
}

abbrev pub coqui_net : Site
coqui_net = record {
  test = λ url. has (codes ".coqui.net/") url && has (codes ".mp3") url;
  domain = codes "coqui";
}

abbrev pub cutmu_net : Site
cutmu_net = record { test = λ url. has (codes "cutmu.net") url; domain = codes "cutmu.biz" }

abbrev pub domusica_me : Site
domusica_me = record { test = λ url. has (codes "domusica.me") url; domain = codes "domusica.me" }

abbrev pub domusicas_com : Site
domusicas_com = record {
  test = λ url. has (codes "domusicas.com") url;
  domain = codes "domusica.com";
}

abbrev pub goobeo_com : Site
goobeo_com = record { test = λ url. has (codes "goobeo.com") url; domain = codes "goobeo.com" }

abbrev pub gooveo_biz : Site
gooveo_biz = record { test = λ url. has (codes "gooveo.biz") url; domain = codes "gooveo.biz" }

abbrev pub gooveo_info : Site
gooveo_info = record { test = λ url. has (codes "gooveo.info") url; domain = codes "gooveo.info" }

abbrev pub gooveo_me : Site
gooveo_me = record { test = λ url. has (codes "gooveo.me") url; domain = codes "gooveo.me" }

abbrev pub hulkshare_com : Site
hulkshare_com = record {
  test = λ url. has (codes ".hulkshare.com/") url && has (codes ".mp3") url;
  domain = codes "hulkshare";
}

abbrev pub maguinamotors_com : Site
maguinamotors_com = record {
  test = λ url. has (codes ".maguinamotors.com/") url && has (codes ".mp3") url;
  domain = codes "maguinamotors";
}

abbrev pub manabar_ca : Site
manabar_ca = record {
  test = λ url. has (codes "manabar.ca/") url && has (codes ".mp3") url;
  domain = codes "manabar";
}

abbrev pub molenillo_com : Site
molenillo_com = record {
  test = λ url. has (codes "molenillo.com/") url && has (codes ".mp3") url;
  domain = codes "molenillo";
}

abbrev pub mp3_buscador_com : Site
mp3_buscador_com = record {
  test = λ url. has (codes ".mp3-buscador.com/") url && has (codes ".mp3") url;
  domain = codes "mp3-buscador";
}

abbrev pub musicaveo_biz : Site
musicaveo_biz = record {
  test = λ url. has (codes "musicaveo.biz") url;
  domain = codes "musicaveo.biz";
}

abbrev pub musicaveo_info : Site
musicaveo_info = record {
  test = λ url. has (codes "musicaveo.info") url;
  domain = codes "musicaveo.info";
}

abbrev pub ning_com : Site
ning_com = record {
  test = λ url. has (codes ".ning.com/") url && has (codes ".mp3") url;
  domain = codes "ning";
}

abbrev pub nofeehost_com : Site
nofeehost_com = record {
  test = λ url. has (codes ".nofeehost.com/") url && has (codes ".mp3") url;
  domain = codes "nofeehost";
}

abbrev pub sonicomusica_com : Site
sonicomusica_com = record {
  test = λ url.
      has (codes ".sonicomusica.com/") url
      && (has (codes ".sm3") url || not (has (codes ".jpg") url));
  domain = codes "sonicomusica";
}

abbrev pub turner_com : Site
turner_com = record {
  test = λ url. has (codes ".turner.com/") url && has (codes ".mp3") url;
  domain = codes "turner";
}

abbrev pub vevos_biz : Site
vevos_biz = record { test = λ url. has (codes "vevos.biz") url; domain = codes "vevos.biz" }
